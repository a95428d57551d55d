-- ===== src/Creation/Stops.antt =====
-- Where the power failure stops a boot (src/recover.rs, `idempotent_boot`).
use mathlib.Core.Path.{subst}
use mathlib.Core.List.{append_assoc}
use int_os.Base.{
  ℕ, ◌≡◌, ◌⊎◌, refl, sym, ◌∙◌, inl, inr, arith, List, [], ◌∷◌, ◌++◌, length, length-append,
}
use int_os.Creation.{TaskParams, Kernel, Created, create_tx, finish, create_task_static, boot}
use int_os.Creation.Torn.{Torn}
use int_os.Creation.Replays.{
  finish-Inserted, Inserted-rest, Inserted, AllInserted, Valid, create-Grown,
}

-- What is left of a boot that the power failure stops: before or behind a creation or the replay of one,
-- in the transaction of a creation, or between the transaction and the insertion.
pub data Stops (limit : ℕ) : List TaskParams → List Created → Kernel → Kernel → Type 0 where
  between : {ps : List TaskParams} {rs : List Created} {k : Kernel} → Stops limit ps rs k k
  in_tx :
      {p : TaskParams} {ps : List TaskParams} {k k' : Kernel}
      → Valid limit p k
      → Torn p k k'
      → Stops limit (p ∷ ps) [] k k'
  behind_tx :
      {p : TaskParams} {ps : List TaskParams} {k : Kernel}
      → Stops limit (p ∷ ps) [] k (create_tx limit p k).1
  creates :
      {p : TaskParams} {ps : List TaskParams} {k k' : Kernel}
      → Stops limit ps [] (create_task_static limit p k) k'
      → Stops limit (p ∷ ps) [] k k'
  replays :
      {p : TaskParams} {ps : List TaskParams} {r : Created} {rs : List Created} {k k' : Kernel}
      → Stops limit ps rs (finish r k) k'
      → Stops limit (p ∷ ps) (r ∷ rs) k k'

-- Boots that fail, one after the other.
pub data Fails (limit : ℕ) (ps : List TaskParams) (k : Kernel) : Kernel → Type 0 where
  first : Fails limit ps k k
  again :
      {k' k'' : Kernel}
      → Fails limit ps k k'
      → Stops limit ps k'.results k' k''
      → Fails limit ps k k''

-- A state between two creations, or in one.
pub data Place (limit : ℕ) : List TaskParams → Kernel → Kernel → Type 0 where
  at_rest : {qs : List TaskParams} {k : Kernel} → Place limit qs k k
  torn :
      {q : TaskParams} {qs : List TaskParams} {k k' : Kernel}
      → Valid limit q k
      → Torn q k k'
      → Place limit (q ∷ qs) k k'
  behind :
      {q : TaskParams} {qs : List TaskParams} {k : Kernel}
      → Place limit (q ∷ qs) k (create_tx limit q k).1

-- The tasks of `ds` are created, and `qs` are left.
abbrev pub At : ℕ → List TaskParams → Kernel → List TaskParams → List TaskParams → Kernel → Type 0
At limit ps k₀ ds qs k =
    (ps ≡ ds ++ qs)
    × (length ds ≡ length k.results)
    × AllInserted k
    × (boot limit qs [] k ≡ boot limit ps [] k₀)

abbrev pub Point : ℕ → List TaskParams → Kernel → Kernel → Type 0
Point limit ps k₀ k' =
    (ds : List TaskParams) × (qs : List TaskParams) × (k : Kernel) × At limit ps k₀ ds qs k
    × Place limit qs k k'

pub next-At :
    (limit : ℕ) (ps : List TaskParams) (k₀ : Kernel) (ds : List TaskParams) (q : TaskParams)
    (qs : List TaskParams) (k : Kernel)
    → At limit ps k₀ ds (q ∷ qs) k
    → At limit ps k₀ (ds ++ (q ∷ [])) qs (create_task_static limit q k)
unfolding boot
next-At limit ps k₀ ds q qs k h =
    let g = create-Grown limit q k h.2 in
    let longer = length-append ds (q ∷ []) in
    (h.0 ∙ sym (append_assoc ds (q ∷ []) qs), omega (arith, longer, h.1, g.1), g.0, h.3)

-- A boot without results to replay that is stopped.
pub Stops-rest :
    (limit : ℕ) (ps : List TaskParams) (k₀ : Kernel) (ds qs : List TaskParams) (k k' : Kernel)
    → At limit ps k₀ ds qs k
    → Stops limit qs [] k k'
    → Point limit ps k₀ k'
Stops-rest limit ps k₀ ds qs k k' h between = (ds, qs, k, h, at_rest)
Stops-rest limit ps k₀ ds (q ∷ qs) k k' h (in_tx valid t) = (ds, q ∷ qs, k, h, torn valid t)
Stops-rest limit ps k₀ ds (q ∷ qs) k k' h behind_tx = (ds, q ∷ qs, k, h, behind)
Stops-rest limit ps k₀ ds (q ∷ qs) k k' h (creates st) =
    Stops-rest limit ps k₀ (ds ++ (q ∷ [])) qs (create_task_static limit q k) k'
      (next-At limit ps k₀ ds q qs k h) st

-- The replay of creations that are done, stopped: nothing has changed, or the failure comes later.
pub Stops-replays :
    (limit : ℕ) (ds qs : List TaskParams) (rs ts : List Created) (k k' : Kernel)
    → length ds ≡ length rs
    → Inserted k rs
    → Stops limit (ds ++ qs) (rs ++ ts) k k'
    → (k ≡ k') ⊎ Stops limit qs ts k k'
Stops-replays limit [] qs [] ts k k' same h st = inr st
Stops-replays limit [] qs (r ∷ rs) ts k k' same h st = absurd (omega (arith, same))
Stops-replays limit (d ∷ ds) qs [] ts k k' same h st = absurd (omega (arith, same))
Stops-replays limit (d ∷ ds) qs (r ∷ rs) ts k k' same h between = inl refl
Stops-replays limit (d ∷ ds) qs (r ∷ rs) ts k k' same h (replays st) =
    Stops-replays limit ds qs rs ts k k' (omega (arith, same)) (Inserted-rest r k rs h)
      (subst (λ x. Stops limit (ds ++ qs) (rs ++ ts) x k') (finish-Inserted r k rs h) st)
