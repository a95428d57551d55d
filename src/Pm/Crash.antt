-- ===== src/Pm/Crash.antt =====
-- A program that may be stopped at any write, and its recovery after any number of failures.
use int_os.Base.{ℕ, zero, suc, ◌≡◌, refl, ap, Bool, true, false, List, [], ◌∷◌, Option, none, some}
use int_os.Pm.State.{Mem}
use int_os.Pm.Run.{
  Power, stable, failing, Run, done, crashed, panicked, out_of_fuel, Cmd, and_then, ◌>>◌, write,
  memory, pure,
}

abbrev pub boot_after : {A : Type 0} → (Mem → Option Mem) → Run A → Option Mem
boot_after next (done _ _ m) = some m
boot_after next (crashed m) = next m
boot_after next panicked = none
boot_after next out_of_fuel = none

-- Boot after boot runs the recovery `rec`; the power fails in each boot after the given number of
-- writes, and is stable at last.
unfoldable pub reboot : Cmd (Unit {0}) → List ℕ → Mem → Option Mem
reboot rec [] m = memory (rec stable m)
reboot rec (n ∷ ns) m = boot_after (reboot rec ns) (rec (failing n) m)

-- `op`, with a power failure after `n` writes if it has more, and then the boots.
unfoldable pub run_with_crashes :
    {A : Type 0} → Cmd A → Cmd (Unit {0}) → ℕ → List ℕ → Mem → Option Mem
run_with_crashes op rec n ns m = boot_after (reboot rec ns) (op (failing n) m)

abbrev pub may_fail : Power → Bool
may_fail stable = false
may_fail (failing _) = true

-- What a run may leave: the memory `target` if it ends, a memory that satisfies `Inv` if the power
-- fails, which it does not where the flag is `false`. The run does not panic.
pub data Outcome {A : Type 0} (Inv : Mem → Type 0) (target : Mem) : Bool → Run A → Type 0 where
  ended : {a : A} {p : Power} {m : Mem} {f : Bool} → m ≡ target → Outcome Inv target f (done a p m)
  failed : {m : Mem} → Inv m → Outcome Inv target true (crashed m)

-- Sequences associate.
pub and_then_assoc :
    {A B C : Type 0} (r : Run A) (k : A → Cmd B) (l : B → Cmd C)
    → and_then (and_then r k) l ≡ and_then r (λ a p m. and_then (k a p m) l)
and_then_assoc (done a p m) k l = refl
and_then_assoc (crashed m) k l = refl
and_then_assoc panicked k l = refl
and_then_assoc out_of_fuel k l = refl

module _ {Inv : Mem → Type 0} {target : Mem} where
  -- A write, and what follows it.
  pub write-Outcome :
      {A : Type 0} (f : Mem → Mem) (k : Cmd A) (m : Mem)
      → Inv m
      → ((q : Power) → Outcome Inv target (may_fail q) (k q (f m)))
      → (p : Power) → Outcome Inv target (may_fail p) ((write f >> k) p m)
  write-Outcome f k m inv rest stable = rest stable
  write-Outcome f k m inv rest (failing zero) = failed inv
  write-Outcome f k m inv rest (failing (suc n)) = rest (failing n)

  -- The last write.
  pub write-last :
      (f : Mem → Mem) (m : Mem)
      → Inv m
      → f m ≡ target
      → (p : Power) → Outcome Inv target (may_fail p) (write f p m)
  write-last f m inv e stable = ended e
  write-last f m inv e (failing zero) = failed inv
  write-last f m inv e (failing (suc n)) = ended e

  pub discard-Outcome :
      {A : Type 0} {r : Run A} {f : Bool}
      → Outcome Inv target f r
      → Outcome Inv target f (and_then r (λ _. pure tt))
  discard-Outcome (ended e) = ended e
  discard-Outcome (failed i) = failed i

  pub memory-ended :
      {A : Type 0} {r : Run A} {f : Bool}
      → Outcome Inv target f r
      → f ≡ false
      → memory r ≡ some target
  memory-ended (ended e) h = ap some e
  memory-ended (failed i) h = cc

  -- A recovery that keeps `Inv` until it ends reaches `target` in the end, whatever the failures.
  module _ (rec : Cmd (Unit {0}))
      (keeps : (m : Mem) → Inv m → (p : Power) → Outcome Inv target (may_fail p) (rec p m)) where
    after_boot :
        {A : Type 0} {r : Run A} (next : Mem → Option Mem)
        → Outcome Inv target true r
        → ((m : Mem) → Inv m → next m ≡ some target)
        → boot_after next r ≡ some target
    after_boot next (ended e) ih = ap some e
    after_boot next (failed i) ih = ih _ i

    pub reboot-target : (ns : List ℕ) (m : Mem) → Inv m → reboot rec ns m ≡ some target
    unfolding reboot
    reboot-target [] m inv = memory-ended (keeps m inv stable) refl
    reboot-target (n ∷ ns) m inv =
        after_boot (reboot rec ns) (keeps m inv (failing n)) (reboot-target ns)

    pub run_with_crashes-target :
        {A : Type 0} (op : Cmd A) (m : Mem)
        → ((p : Power) → Outcome Inv target (may_fail p) (op p m))
        → (n : ℕ) (ns : List ℕ) → run_with_crashes op rec n ns m ≡ some target
    unfolding run_with_crashes
    run_with_crashes-target op m first n ns =
        after_boot (reboot rec ns) (first (failing n)) (reboot-target ns)
