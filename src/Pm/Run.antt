-- ===== src/Pm/Run.antt =====
-- Programs over the persistent memory, with the power failure at any write.
use int_os.Base.{ℕ, zero, suc, Bool, Option, if◌then◌else◌}
use int_os.Pm.State.{Mem}

-- The power is stable, or it fails after so many more writes.
pub data Power : Type 0 where
  stable : Power
  failing : ℕ → Power

pub data Run (A : Type 0) : Type 0 where
  done : A → Power → Mem → Run A
  crashed : Mem → Run A
  -- a panic, a failed assertion or undefined behaviour (`unwrap_unchecked` of `None`)
  panicked : Run A
  out_of_fuel : Run A

abbrev pub Cmd : Type 0 → Type 0
Cmd A = Power → Mem → Run A

abbrev pub pure : {A : Type 0} → A → Cmd A
pure = done

module _ {A B : Type 0} where
  abbrev pub and_then : Run A → (A → Cmd B) → Run B
  and_then (done a p m) k = k a p m
  and_then (crashed m) k = crashed m
  and_then panicked k = panicked
  and_then out_of_fuel k = out_of_fuel

  infixl 5 ◌>>=◌ ◌>>◌
  abbrev pub ◌>>=◌ : Cmd A → (A → Cmd B) → Cmd B
  ◌>>=◌ c k p m = and_then (c p m) k

  abbrev pub ◌>>◌ : Cmd A → Cmd B → Cmd B
  ◌>>◌ c d p m = and_then (c p m) (λ _. d)

-- A read of the memory.
abbrev pub get : {A : Type 0} → (Mem → A) → Cmd A
get f p m = done (f m) p m

-- One write: the memory that it leaves, or the memory before it if the power fails.
abbrev pub write : (Mem → Mem) → Cmd (Unit {0})
write f stable m = done tt stable (f m)
write f (failing zero) m = crashed m
write f (failing (suc n)) m = done tt (failing n) (f m)

abbrev pub panic : {A : Type 0} → Cmd A
panic p m = panicked

abbrev pub when : Bool → Cmd (Unit {0}) → Cmd (Unit {0})
when b c = if b then c else pure tt

-- `unwrap` and `unwrap_unchecked`
abbrev pub unwrap : {A : Type 0} → Option A → Cmd A
unwrap Option.none = panic
unwrap (Option.some a) = pure a

-- `o.map(|a| …)` for its effect
abbrev pub for_some : {A : Type 0} → Option A → (A → Cmd (Unit {0})) → Cmd (Unit {0})
for_some Option.none c = pure tt
for_some (Option.some a) c = c a

-- The memory of a run that ended.
abbrev pub memory : {A : Type 0} → Run A → Option Mem
memory (done _ _ m) = Option.some m
memory _ = Option.none
