-- ===== src/PSorted/Waiters.antt =====
-- The order of the tasks in a wait list (src/list.rs, `SortedPList<BlockedListItem>`; src/task.rs,
-- `Priority`, where a higher value has a lower priority).
use mathlib.Core.Path.{subst}
use mathlib.Core.Option.{some-injective}
use int_os.Dll.Insert.{has-insert_by, length-insert_by}
use int_os.Base.{
  sym, ap, ◌∙◌, ◌==◌, Bool-cases, ==→eq, has, ℕ, ◌≤◌, ◌≡◌, inl, inr, Bool, true, false, List, [],
  ◌∷◌, arith, none, length, ◌+◌, ◌<◌, usize_mod, suc, some,
}
use int_os.OpLog.{TaskId, Ptr, ListId}
use int_os.Pm.State.{Item, item_gt, Mem, Task, priority_gt, Kind}
use int_os.Dll.Ordered.{Ordered}
use int_os.PSorted.Insert.{node_gt, insert-crash_safe}
use int_os.Dll.{IsList}
use int_os.Pm.Crash.{run_with_crashes}
use int_os.PList.{optimized_pop_front, recover_from_failed_pop_front}
use int_os.PSorted.{insert, recover_from_failed_insert_sorted}
use int_os.PList.PopFront.{pop_front-crash_safe}
use int_os.Dll.Insert.{insert_by}

-- The priority value of the task of a blocked item.
unfoldable pub priority_of : (TaskId → Task) → Item → ℕ
priority_of tasks (Item.blocked task _) = (tasks task).priority
priority_of tasks _ = 0

-- An item of the type that wait lists hold.
unfoldable pub is_waiter : Item → Bool
is_waiter (Item.blocked _ _) = true
is_waiter _ = false

waiter_order :
    (tasks : TaskId → Task) (a b : Item)
    → is_waiter a ≡ true
    → is_waiter b ≡ true
    → item_gt tasks a b ≡ false
    → priority_of tasks b ≤ priority_of tasks a
unfolding priority_of is_waiter item_gt priority_gt
waiter_order tasks (Item.blocked s _) (Item.blocked t _) wa wb h = ground arith
waiter_order tasks a b wa wb h = cc

-- In a wait list in ascending order the first task has the highest priority value.
Ordered-first :
    (m : Mem) (x : Ptr) (xs : List Ptr)
    → ((a : Ptr) → has a (x ∷ xs) ≡ true → is_waiter (m.value a) ≡ true)
    → Ordered (node_gt m) (x ∷ xs)
    → (y : Ptr) → has y xs ≡ true
    → priority_of m.tasks (m.value y) ≤ priority_of m.tasks (m.value x)
Ordered-first m x [] waiters order y at = cc
Ordered-first m x (z ∷ zs) waiters order y at = elim (Bool-cases (y == z)) [
  | inl hit ↦ rw (==→eq y z hit) first
  | inr miss ↦ omega (
    arith,
    first,
    Ordered-first m z zs (λ a h. waiters a (ground arith)) order.1 y (ground arith),
  )
]
  where
    first : priority_of m.tasks (m.value z) ≤ priority_of m.tasks (m.value x)
    first =
        waiter_order m.tasks (m.value x) (m.value z) (waiters x (ground arith))
          (waiters z (ground arith)) order.0

-- A wait list that is empty at first: tasks are inserted that are in no list, and the first one is
-- taken, each with power failures at any writes of the operation and its recoveries, or with none.
pub data Waits (t : Kind) (l : ListId) : Mem → List Ptr → Type 0 where
  nobody : {m : Mem} → IsList m l [] → Waits t l m []
  inserts :
      {m m' : Mem} {xs : List Ptr} (x : Ptr) (n : ℕ) (ns : List ℕ)
      → Waits t l m xs
      → m.list x ≡ none
      → is_waiter (m.value x) ≡ true
      → length xs + 1 < usize_mod
      → run_with_crashes
          (insert t l x)
          (recover_from_failed_insert_sorted l x (m.len l))
          (suc n)
          ns
          m
        ≡ some m'
      → Waits t l m' (insert_by (node_gt m x) x xs)
  pops :
      {m m' : Mem} {x : Ptr} {xs : List Ptr} (n : ℕ) (ns : List ℕ)
      → Waits t l m (x ∷ xs)
      → run_with_crashes
          (optimized_pop_front t l)
          (recover_from_failed_pop_front t l x (m.len l))
          (suc n)
          ns
          m
        ≡ some m'
      → Waits t l m' xs

abbrev IsWaitList : ListId → Mem → List Ptr → Type 0
IsWaitList l m xs =
    IsList m l xs
    × Ordered (node_gt m) xs
    × ((a : Ptr) → has a xs ≡ true → is_waiter (m.value a) ≡ true)
    × (length xs < usize_mod)

Ordered-rest :
    (gt : Ptr → Ptr → Bool) (x : Ptr) (xs : List Ptr) → Ordered gt (x ∷ xs) → Ordered gt xs
Ordered-rest gt x [] o = tt
Ordered-rest gt x (y ∷ ys) o = o.1

Waits-IsWaitList :
    {t : Kind} {l : ListId} {m : Mem} {xs : List Ptr} → Waits t l m xs → IsWaitList l m xs
Waits-IsWaitList (nobody is) = (is, tt, (λ a h. absurd (ground (arith, h))), omega arith)
Waits-IsWaitList {t} {l} (inserts {m} {m'} {xs} x n ns w out waiter small e) =
    let ih = Waits-IsWaitList w in
    let r = insert-crash_safe t l x ih.0 out small ih.1 n ns in
    let same : r.0 ≡ m' = some-injective _ _ (sym r.2 ∙ e) in
    subst (λ k. IsWaitList l k (insert_by (node_gt m x) x xs)) same
      (
        r.3,
        r.4,
        λ a h. ap (λ v. is_waiter (v a)) r.5 ∙ elim (Bool-cases (a == x)) [
          | inl hit ↦ ap (λ b. is_waiter (m.value b)) (==→eq a x hit) ∙ waiter
          | inr miss ↦ ih.2 a (ground (arith, has-insert_by (node_gt m x) x xs a, h, miss))
        ],
        omega (arith, length-insert_by (node_gt m x) x xs, small),
      )
Waits-IsWaitList {t} {l} (pops {m} {m'} {x} {xs} n ns w e) =
    let ih = Waits-IsWaitList w in
    let r = pop_front-crash_safe t l ih.0 ih.3 n ns in
    let same : r.0 ≡ m' = some-injective _ _ (sym r.2 ∙ e) in
    subst (λ k. IsWaitList l k xs) same
      (
        r.3,
        subst (λ v. Ordered (λ a b. item_gt r.0.tasks (v a) (v b)) xs) (sym r.5)
            (subst (λ q. Ordered (λ a b. item_gt q (m.value a) (m.value b)) xs) (sym r.6)
              (Ordered-rest (node_gt m) x xs ih.1)),
        λ a h. ap (λ v. is_waiter (v a)) r.5 ∙ ih.2 a (ground (arith, h)),
        omega (arith, ih.3),
      )

-- In a wait list that was empty, behind any insertions of waiting tasks and takings of the first one,
-- each with any power failures, the first task has no lower a priority value than any other, so that it
-- is one of the lowest priority; and it is the one that the next taking, with any power failures, takes
-- out of the list.
pub wait_list-lowest_first :
    {t : Kind} {l : ListId} {m : Mem} {x : Ptr} {xs : List Ptr} (n : ℕ) (ns : List ℕ)
    → Waits t l m (x ∷ xs)
    → ((y : Ptr)
        → has y xs ≡ true
        → priority_of m.tasks (m.value y) ≤ priority_of m.tasks (m.value x))
      × (m' : Mem) × (run_with_crashes
            (optimized_pop_front t l)
            (recover_from_failed_pop_front t l x (m.len l))
            (suc n)
            ns
            m
          ≡ some m')
      × IsList m' l xs
      × (m'.list x ≡ none)
wait_list-lowest_first {t} {l} {m} {x} {xs} n ns w =
    let h = Waits-IsWaitList w in
    let r = pop_front-crash_safe t l h.0 h.3 n ns in
    (Ordered-first m x xs h.2 h.1, r.0, r.2, r.3, r.4)
