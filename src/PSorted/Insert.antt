-- ===== src/PSorted/Insert.antt =====
-- The insertion into a sorted list with a power failure at any write, and its recovery (src/list.rs,
-- `SortedPList::insert`, `recover_from_failed_insert_sorted`).
use int_os.Base.{
  usize_mod, link_eq, link_eq_refl, Bool-cases, length, has, update_self, ℕ, suc, ◌+◌, ◌<◌, ◌≡◌,
  refl, sym, ◌∙◌, inl, inr, Bool, false, none, some, List, [], ◌∷◌, arith,
}
use int_os.PSorted.{recover_from_failed_insert_sorted, insert, sorted_op, optimized_insert_sorted}
use int_os.OpLog.{ListId, Ptr}
use int_os.Pm.State.{PLink, Mem, item_gt, Kind}
use int_os.PSorted.Inserted.{inserted, headed}
use int_os.Dll.{IsList}
use int_os.PList.{len_more, op_logged}
use int_os.Pm.Run.{Power, memory, stable}
use int_os.Dll.Insert.{
  first_of, split_prev, insert_by, split_next, split_prev-leads, Chain-insert, split_next-leads,
  length-insert_by, has-insert_by,
}
use int_os.PSorted.Search.{Ready}
use int_os.PSorted.Place.{Progress}
use int_os.Pm.Crash.{Outcome, may_fail, run_with_crashes, memory-ended, run_with_crashes-target}
use int_os.PSorted.Loop.{passes}
use int_os.PSorted.Parts.{recover_linked-Outcome}
use int_os.PSorted.Ends.{recover_tail-Outcome, recover_alone-Outcome}
use int_os.PSorted.Recover.{Going, recover_out-Outcome, recover_marked-Outcome, insert-Outcome}
use mathlib.Core.Path.{subst}
use int_os.Dll.Links.{Chain}
use int_os.Dll.Ordered.{Ordered, Ordered-insert_by, item_gt_asym}
use int_os.PList.Logged.{logged-IsList}

-- The recovery of a node whose first link is set.
recover_partial-Outcome :
    (l : ListId) (x : Ptr) (p q : PLink) (old : ℕ) (target : Mem) {Inv : Mem → Type 0}
    → link_eq (some x) p ≡ false
    → link_eq (some x) q ≡ false
    → ((s : Mem) → inserted l x p q (len_more old) s ≡ target → Progress l x p q s → Inv s)
    → (s : Mem) → inserted l x p q (len_more old) s ≡ target
    → Progress l x p q s
    → (r : Power) → Outcome Inv target (may_fail r) (recover_from_failed_insert_sorted l x old r s)
unfolding recover_from_failed_insert_sorted
recover_partial-Outcome l x p (some y) old target apart off keep s rest g r =
    rw (g.0, g.1, link_eq_refl (some l))
      (recover_linked-Outcome l x p _ target y apart off keep old s refl rest g r)
recover_partial-Outcome l x (some z) none old target apart off keep s rest g r =
    rw (g.0, g.1, g.2, link_eq_refl (some l))
      (recover_tail-Outcome l x _ target z apart keep old s refl rest g r)
recover_partial-Outcome l x none none old target apart off keep s rest g r =
    rw (g.0, g.1, g.2, link_eq_refl (some l))
      (recover_alone-Outcome l x _ target keep old s refl rest g r)

module _ (l : ListId) (x : Ptr) (xs : List Ptr) (above : Ptr → Bool) (target : Mem)
    (new : has x xs ≡ false) where
  recover-Outcome :
      (s : Mem)
      → Going l x xs above target new s
      → (r : Power)
      → Outcome
          (Going l x xs above target new)
          target
          (may_fail r)
          (recover_from_failed_insert_sorted l x (length xs) r s)
  recover-Outcome s (rest, inl (ready, inl out)) =
      recover_out-Outcome l x xs above target new s rest ready out
  recover-Outcome s (rest, inl (ready, inr begun)) =
      recover_marked-Outcome l x xs above target new s rest ready begun
  recover-Outcome s (rest, inr g) =
      recover_partial-Outcome l x (split_prev above none xs) (split_next above xs) (length xs)
        target (split_prev-leads above none xs x new refl) (split_next-leads above xs x new)
        (λ s' e h. (e, inr h)) s rest g

split_prev-some :
    (above : Ptr → Bool) (y : Ptr) (ys : List Ptr)
    → (z : Ptr) × (split_prev above (some y) ys ≡ some z)
unfolding split_prev
split_prev-some above y [] = (y, refl)
split_prev-some above y (z ∷ zs) = elim (Bool-cases (above z)) [
  | inl up ↦ rw up (split_prev-some above z zs)
  | inr low ↦ rw low (y, refl)
]

-- The head after the insertion is the first node of the new chain.
headed-first :
    (above : Ptr → Bool) (h : ListId → PLink) (l : ListId) (x : Ptr) (xs : List Ptr)
    → headed (split_prev above none xs) h l x l ≡ first_of above (h l) x xs
unfolding split_prev
headed-first above h l x [] = update_self h l (some x)
headed-first above h l x (y ∷ ys) = elim (Bool-cases (above y)) [
  | inl up ↦ rw (up, (split_prev-some above y ys).1) refl
  | inr low ↦ rw low (update_self h l (some x))
]

module _ (l : ListId) (x : Ptr) {xs : List Ptr} {m : Mem} (is : IsList m l xs)
    (out : m.list x ≡ none) where
  abbrev pub after_insert : Mem
  after_insert =
      inserted l x (split_prev (passes m x) none xs) (split_next (passes m x) xs)
        (len_more (length xs)) m

  pub fresh : has x xs ≡ false
  fresh = sym (is.owned x) ∙ rw out refl

  start-Ready : Ready l x xs (passes m x) m
  start-Ready = record { chain = is.chain; len = is.count; same = refl }

  -- The list after the insertion.
  pub inserted-IsList :
      length xs + 1 < usize_mod → IsList after_insert l (insert_by (passes m x) x xs)
  inserted-IsList small = record {
    chain =
        subst (λ h. Chain after_insert.next after_insert.prev none h (insert_by (passes m x) x xs))
          (sym (headed-first (passes m x) m.head l x xs))
          (Chain-insert m.next m.prev (passes m x) x none (m.head l) xs is.chain fresh refl refl);
    count =
        update_self m.len l (len_more (length xs))
        ∙ omega (arith, length-insert_by (passes m x) x xs);
    cursor = is.cursor;
    owned =
        λ a. ground (arith, is.owned a, has-insert_by (passes m x) x xs a, link_eq_refl (some l));
  }

-- Whether one node of a list has a greater item than another.
abbrev pub node_gt : Mem → Ptr → Ptr → Bool
node_gt m a b = item_gt m.tasks (m.value a) (m.value b)

-- The insertion of a node that is in no list into a list in ascending order, with a power failure
-- after any number of the writes that follow the entry in the log, and after any numbers `ns` of
-- writes of the recoveries that follow, ends in the memory that the insertion leaves without
-- failure. There the list is in ascending order and holds the new node before the first node whose
-- item is not less, and its other nodes as before; the items and the tasks stay.
pub insert-crash_safe :
    (t : Kind) (l : ListId) (x : Ptr) {xs : List Ptr} {m : Mem}
    → IsList m l xs
    → m.list x ≡ none
    → length xs + 1 < usize_mod
    → Ordered (node_gt m) xs
    → (n : ℕ) (ns : List ℕ)
    → let recover = recover_from_failed_insert_sorted l x (m.len l) in
      let ys = insert_by (node_gt m x) x xs in
      (m' : Mem) × (memory (insert t l x stable m) ≡ some m')
      × (run_with_crashes (insert t l x) recover (suc n) ns m ≡ some m')
      × IsList m' l ys
      × Ordered (node_gt m') ys
      × (m'.value ≡ m.value)
      × (m'.tasks ≡ m.tasks)
unfolding insert run_with_crashes
insert-crash_safe t l x {xs} {m} is out small order n ns = (
  after_insert l x is' out,
  memory-ended (start-Outcome stable) refl,
  subst
      (λ k.
        run_with_crashes (insert t l x) (recover_from_failed_insert_sorted l x k) (suc n) ns m
        ≡ some (after_insert l x is' out))
      (sym is.count)
      (run_with_crashes-target (recover_from_failed_insert_sorted l x (length xs))
        (recover-Outcome l x xs (passes m x) (after_insert l x is' out) (fresh l x is' out))
        (optimized_insert_sorted l x) m₁ start-Outcome n ns),
  inserted-IsList l x is' out small,
  Ordered-insert_by (node_gt m) (λ a b. item_gt_asym m.tasks (m.value a) (m.value b)) x xs order,
  refl,
  refl,
)
  where
    m₁ : Mem
    m₁ = op_logged t (sorted_op t) (m.len l) m

    is' : IsList m₁ l xs
    is' = logged-IsList t (sorted_op t) (m.len l) is

    start-Outcome :
        (r : Power)
        → Outcome
            (Going l x xs (passes m x) (after_insert l x is' out) (fresh l x is' out))
            (after_insert l x is' out)
            (may_fail r)
            (optimized_insert_sorted l x r m₁)
    start-Outcome =
        insert-Outcome l x xs (passes m x) (after_insert l x is' out) (fresh l x is' out) m₁ refl
          (start-Ready l x is' out) (rw out refl)
