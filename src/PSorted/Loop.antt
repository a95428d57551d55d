-- ===== src/PSorted/Loop.antt =====
-- The search of the place for a new node (src/list.rs, the loop of `optimized_insert_sorted_impl`).
use int_os.Base.{
  Bool-cases, length, ℕ, zero, suc, ◌<◌, ◌≡◌, refl, inl, inr, Bool, none, some, List, [], ◌∷◌,
  arith,
}
use int_os.OpLog.{ListId, Ptr}
use int_os.Pm.State.{Mem, PLink, item_gt}
use int_os.PSorted.{insert_from, insert_before, insert_after}
use int_os.Dll.Insert.{split_prev, split_next}
use int_os.Pm.Run.{Cmd, Power, panic}
use int_os.Dll.Links.{Chain}

-- The insertion between the neighbours `p` and `q`.
abbrev pub place : ListId → Ptr → PLink → PLink → Cmd (Unit {0})
place l x p (some b) = insert_before l x b
place l x (some z) none = insert_after l x z
place l x none none = panic

-- Whether the loop goes past a node.
abbrev pub passes : Mem → Ptr → Ptr → Bool
passes m x a = item_gt m.tasks (m.value x) (m.value a)

-- With fuel for each node the loop ends, and inserts behind the last node that it passes.
pub insert_from-place :
    (k : ℕ) (l : ListId) (x y : Ptr) (pr : PLink) (ys : List Ptr) (m : Mem)
    → Chain m.next m.prev (some y) (m.next y) ys
    → length ys < k
    → (r : Power)
    → insert_from k l x y r m
      ≡ place l x (split_prev (passes m x) pr (y ∷ ys)) (split_next (passes m x) (y ∷ ys)) r m
unfolding insert_from split_prev split_next
insert_from-place zero l x y pr ys m c h r = elim h [ ]
insert_from-place (suc k) l x y pr [] m c h r = elim (Bool-cases (passes m x y)) [
  | inl up ↦ rw (up, c) refl
  | inr low ↦ rw low refl
]
insert_from-place (suc k) l x y pr (z ∷ zs) m c h r = elim (Bool-cases (passes m x y)) [
  | inl up ↦ rw (up, c.0) (insert_from-place k l x z (some y) zs m c.3 (omega arith) r)
  | inr low ↦ rw low refl
]
