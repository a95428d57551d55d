-- ===== src/Replay/Point.antt =====
-- What holds at each point of a run (src/transaction.rs): the results that a replay will read are those
-- of the transactions that are committed.
use int_os.Base.{ℕ, zero, suc, ◌+◌, ◌≤◌, ◌<◌, ◌≡◌, ◌∙◌, sym, arith, ◌∷◌, refl, ap}
use int_os.Journal.{Bytes}
use int_os.TxCache.{tx_cache_sz}
use int_os.TxCache.Fields.{composite, Tail}
use int_os.Transaction.{Machine, object}
use int_os.Replay.{Program, finished, tx, value, Fits}

-- `cache` holds, from `at` on, the results of the next `n` transactions of a program that is at the
-- memory `mem`; they end at `to`, and their memory is `now`.
abbrev pub Replays : ℕ → Program → Bytes → ℕ → Bytes → Bytes → ℕ → Type 0
Replays zero p mem at cache now to = (mem ≡ now) × (at ≡ to)
Replays (suc n) finished mem at cache now to = ⊥
Replays (suc n) (tx b k) mem at cache now to =
    ((i : ℕ) → i < b.size → cache (at + i) ≡ b.result mem i)
    × Replays n (k (value b mem)) (b.after mem) (at + b.size) cache now to

-- A program is at the memory `mem`, behind `id` transactions with `at` bytes of results, and `n` more
-- are committed, up to `to`. Of the cache and the journal this is all that the next boot reads.
pub record Kept (p : Program) (mem : Bytes) (id at n to : ℕ) (m : Machine) : Type 0 where
  pub tail : Tail m.cache.tail (id + n) to
  pub replays : Replays n p mem at m.cache.cache m.mem to
  pub journal : m.journal.tail ≡ 0

pub record At (p : Program) (mem : Bytes) (id at n to : ℕ) (m : Machine) : Type 0 where
  pub kept : Kept p mem id at n to m
  pub ptr : m.cache.ptr ≡ composite id at
  pub fits : Fits p mem id at
  pub short : at ≤ tx_cache_sz
  pub few : id < 65536

pub Replays-bounds :
    (n : ℕ) (p : Program) (mem : Bytes) (id at : ℕ) (cache now : Bytes) (to : ℕ)
    → Fits p mem id at
    → at ≤ tx_cache_sz
    → id < 65536
    → Replays n p mem at cache now to
    → (id + n < 65536) × (to ≤ tx_cache_sz) × (at ≤ to)
Replays-bounds zero p mem id at cache now to f short few r = omega (arith, r.1)
Replays-bounds (suc n) finished mem id at cache now to f short few r = absurd r
Replays-bounds (suc n) (tx b k) mem id at cache now to f short few r =
    let h =
      Replays-bounds n (k (value b mem)) (b.after mem) (id + 1) (at + b.size) cache now to f.2 f.0
        f.1 r.1 in
    omega (arith, h.0, h.1, h.2)

-- A value is its bytes.
pub object-same :
    (n at at' : ℕ) (f g : Bytes)
    → ((i : ℕ) → i < n → f (at + i) ≡ g (at' + i))
    → object n at f ≡ object n at' g
object-same zero at at' f g same = refl
object-same (suc n) at at' f g same =
    ap (λ v. v ∷ object n (suc at) f) (ap f (sym (end at)) ∙ same 0 (omega arith) ∙ ap g (end at'))
    ∙ ap (λ vs. g at' ∷ vs)
        (object-same n (suc at) (suc at') f g
          (λ i h. ap f (next at i) ∙ same (suc i) (omega arith) ∙ ap g (sym (next at' i))))
  where
    end : (a : ℕ) → a + 0 ≡ a
    end a = omega arith

    next : (a i : ℕ) → suc a + i ≡ a + suc i
    next a i = omega arith
