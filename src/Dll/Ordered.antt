-- ===== src/Dll/Ordered.antt =====
-- Lists without a node that is greater than the next one.
use int_os.Base.{Bool-cases, ◌≡◌, refl, inl, inr, Bool, true, false, List, [], ◌∷◌, arith}
use int_os.OpLog.{Ptr, TaskId}
use int_os.Dll.Insert.{insert_by}
use int_os.Pm.State.{item_gt, priority_gt, Task, Item}
use mathlib.Core.Path.{subst}

module _ (gt : Ptr → Ptr → Bool) where
  abbrev pub Ordered : List Ptr → Type 0
  Ordered [] = Unit {0}
  Ordered (x ∷ []) = Unit {0}
  Ordered (x ∷ y ∷ ys) = (gt x y ≡ false) × Ordered (y ∷ ys)

-- An insertion behind the nodes that are less keeps the order.
pub Ordered-insert_by :
    (gt : Ptr → Ptr → Bool) (asym : (a b : Ptr) → gt a b ≡ true → gt b a ≡ false) (x : Ptr)
    (xs : List Ptr)
    → Ordered gt xs
    → Ordered gt (insert_by (gt x) x xs)
unfolding insert_by
Ordered-insert_by gt asym x [] o = o
Ordered-insert_by gt asym x (y ∷ []) o = elim (Bool-cases (gt x y)) [
  | inl up ↦ rw up (asym x y up, tt)
  | inr low ↦ rw low (low, tt)
]
Ordered-insert_by gt asym x (y ∷ z ∷ zs) o = elim (Bool-cases (gt x y)) [
  | inl up ↦ rw up (elim (Bool-cases (gt x z)) [
    | inl up' ↦
        rw up'
          (o.0, subst (Ordered gt) (by_test z zs up') (Ordered-insert_by gt asym x (z ∷ zs) o.1))
    | inr low ↦ rw low (asym x y up, (low, o.1))
  ])
  | inr low ↦ rw low (low, o)
]
  where
    by_test :
        (z : Ptr) (zs : List Ptr)
        → gt x z ≡ true
        → insert_by (gt x) x (z ∷ zs) ≡ z ∷ insert_by (gt x) x zs
    by_test z zs up = rw up

-- The items of the three types are compared by numbers.
pub item_gt_asym :
    (tasks : TaskId → Task) (a b : Item) → item_gt tasks a b ≡ true → item_gt tasks b a ≡ false
unfolding item_gt priority_gt
item_gt_asym tasks (Item.sched _ a) (Item.sched _ b) h = ground arith
item_gt_asym tasks (Item.blocked s _) (Item.blocked t _) h = ground arith
item_gt_asym tasks (Item.timer _ a) (Item.timer _ b) h = ground arith
item_gt_asym tasks a b h = refl
