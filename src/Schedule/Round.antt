-- ===== src/Schedule/Round.antt =====
-- Task switches take the tasks of a ready list in turn (src/task.rs, `task_switch`).
use mathlib.Core.Path.{subst}
use mathlib.Core.List.{append-nil, append_assoc}
use int_os.Base.{
  ==→eq, ℕ, zero, suc, ◌+◌, ◌≤◌, ◌<◌, ◌≡◌, refl, sym, ap, ◌∙◌, inl, inr, arith, true, false, Option,
  none, some, List, [], ◌∷◌, ◌++◌, ◌==◌, has, length, length-append, Bool-cases, update_self,
}
use int_os.OpLog.{TaskId}
use int_os.Schedule.{
  num_priority_levels, Scheduler, task_switch, switch_from, context_switch, peek_next, next,
}
use int_os.Schedule.Wakes.{has-append}

-- A number of task switches: the tasks that are switched to, in order.
abbrev pub switches : ℕ → Scheduler → Option (List TaskId × Scheduler)
switches zero s = some ([], s)
switches (suc k) s = elim (task_switch s) [
  | none ↦ none
  | some s' ↦ elim (switches k s') [ none ↦ none | some (ts, end) ↦ some (s'.current ∷ ts, end) ]
]

abbrev pub AllDistinct : List TaskId → Type 0
AllDistinct [] = Unit
AllDistinct (x ∷ xs) = (has x xs ≡ false) × AllDistinct xs

-- The current task is at the cursor of the first ready list that is not empty.
abbrev pub AtCursor : ℕ → List TaskId → Scheduler → Type 0
AtCursor i [] s = ⊥
AtCursor i (x ∷ xs) s =
    ((j : ℕ) → j < i → s.task_lists j ≡ [])
    × (s.task_lists i ≡ x ∷ xs)
    × (s.current ≡ x)
    × AllDistinct (x ∷ xs)

pub AllDistinct-append :
    (x : TaskId) (xs : List TaskId)
    → has x xs ≡ false
    → AllDistinct xs
    → AllDistinct (xs ++ (x ∷ []))
AllDistinct-append x [] h d = (refl, tt)
AllDistinct-append x (y ∷ ys) h d = (
  has-append y ys (x ∷ []) ∙ ground (arith, h, d.0),
  AllDistinct-append x ys (ground (arith, h)) d.1,
)

-- The empty lists before are skipped.
switch_from-skip :
    (n j i : ℕ) (s : Scheduler)
    → j ≤ i
    → i < j + n
    → ((p : ℕ) → p < i → s.task_lists p ≡ [])
    → (k : ℕ) × (switch_from n j s ≡ switch_from (suc k) i s)
unfolding switch_from peek_next
switch_from-skip zero j i s from to h = absurd (omega (arith, from, to))
switch_from-skip (suc n) j i s from to h = elim (Bool-cases (j == i)) [
  | inl here ↦ (n, ap (λ q. switch_from (suc n) q s) (==→eq j i here))
  | inr before ↦
      let below : j < i = ground (arith, before, from) in
      let empty : peek_next (s.task_lists j) ≡ none = ap peek_next (h j below) in
      let ih = switch_from-skip n (j + 1) i s (omega (arith, below)) (omega (arith, to)) h in
      (ih.0, rw (switch_from, empty) ih.1)
]

-- A switch to the task behind the cursor, which is not the current one.
pub task_switch-some :
    (i x y : ℕ) (ys : List TaskId) (s : Scheduler)
    → i < num_priority_levels
    → ((j : ℕ) → j < i → s.task_lists j ≡ [])
    → s.task_lists i ≡ x ∷ y ∷ ys
    → (y == s.current) ≡ false
    → task_switch s ≡ some (context_switch y i s)
unfolding task_switch switch_from peek_next
task_switch-some i x y ys s small above list other =
    let skip =
      switch_from-skip num_priority_levels 0 i s (omega arith) (omega (arith, small)) above in
    let found : peek_next (s.task_lists i) ≡ some y = ap peek_next list in
    skip.1 ∙ rw (switch_from, found, other) refl

-- One switch of a task at the cursor.
pub task_switch-takes :
    (i x : ℕ) (xs : List TaskId) (s : Scheduler)
    → i < num_priority_levels
    → AtCursor i (x ∷ xs) s
    → (s' : Scheduler) × (task_switch s ≡ some s')
      × AtCursor i (next (x ∷ xs)) s'
      × ((p : ℕ) → (p == i) ≡ false → s'.task_lists p ≡ s.task_lists p)
unfolding task_switch switch_from peek_next next context_switch
task_switch-takes i x [] s small h =
    let skip =
      switch_from-skip num_priority_levels 0 i s (omega arith) (omega (arith, small)) h.0 in
    let found : peek_next (s.task_lists i) ≡ some x = ap peek_next h.1 in
    let same : (x == s.current) ≡ true = ground (arith, h.2) in
    (s, skip.1 ∙ rw (switch_from, found, same) refl, h, λ p apart. refl)
task_switch-takes i x (y ∷ ys) s small h = (
  context_switch y i s,
  task_switch-some i x y ys s small h.0 h.1 (ground (arith, h.2, h.3.0)),
  (
    λ j below. let apart : (j == i) ≡ false = ground (arith, below) in rw apart (h.0 j below),
    update_self s.task_lists i (next (s.task_lists i)) ∙ ap next h.1,
    refl,
    AllDistinct-append x (y ∷ ys) h.3.0 h.3.1,
  ),
  λ p apart. rw apart refl,
)

-- The list after a number of moves of the cursor, and the tasks at the cursor before each of them.
abbrev turned : ℕ → List TaskId → List TaskId
turned zero l = l
turned (suc k) l = turned k (next l)

abbrev visited : ℕ → List TaskId → List TaskId
visited zero l = []
visited (suc k) [] = []
visited (suc k) (x ∷ xs) = x ∷ visited k (next (x ∷ xs))

turned_lem : (ys zs : List TaskId) → turned (length ys) (ys ++ zs) ≡ zs ++ ys
unfolding next
turned_lem [] zs = sym (append-nil zs)
turned_lem (y ∷ ys) zs =
    ap (turned (length ys)) (append_assoc ys zs (y ∷ []))
    ∙ turned_lem ys (zs ++ (y ∷ []))
    ∙ append_assoc zs (y ∷ []) ys

visited_lem : (ys zs : List TaskId) → visited (length ys) (ys ++ zs) ≡ ys
unfolding next
visited_lem [] zs = refl
visited_lem (y ∷ ys) zs =
    ap (λ l. y ∷ visited (length ys) l) (append_assoc ys zs (y ∷ []))
    ∙ ap (λ l. y ∷ l) (visited_lem ys (zs ++ (y ∷ [])))

visited-current :
    (k i : ℕ) (l : List TaskId) (s : Scheduler)
    → AtCursor i l s
    → s.current ∷ visited k (next l) ≡ visited (suc k) l
visited-current k i [] s h = absurd h
visited-current k i (x ∷ xs) s h = ap (λ t. t ∷ visited k (next (x ∷ xs))) h.2

-- Each switch moves the cursor on, and what it switches to is at the cursor.
switches-turned :
    (k i : ℕ) (l : List TaskId) (s : Scheduler)
    → i < num_priority_levels
    → AtCursor i l s
    → (s' : Scheduler) × (switches k s ≡ some (visited k (next l), s'))
      × AtCursor i (turned k l) s'
      × ((p : ℕ) → (p == i) ≡ false → s'.task_lists p ≡ s.task_lists p)
switches-turned zero i l s small h = (s, refl, h, λ p apart. refl)
switches-turned (suc k) i [] s small h = absurd h
switches-turned (suc k) i (x ∷ xs) s small h =
    let one = task_switch-takes i x xs s small h in
    let rest = switches-turned k i (next (x ∷ xs)) one.0 small one.2 in
    (
      rest.0,
      rw (switches, one.1, rest.1)
          (ap (λ l. some (l, rest.0)) (visited-current k i (next (x ∷ xs)) one.0 one.2)),
      rest.2,
      λ p apart. rest.3 p apart ∙ one.3 p apart,
    )

-- The current task is at the cursor of its ready list, whose tasks are distinct, and the ready lists of
-- higher priority are empty. As many task switches as the list has tasks all succeed, switch to each of
-- the other tasks once, in the order of the list, and at last to the current one; the ready lists are
-- as they were.
pub switches-round_robin :
    (i x : ℕ) (xs : List TaskId) (s : Scheduler)
    → i < num_priority_levels
    → ((j : ℕ) → j < i → s.task_lists j ≡ [])
    → s.task_lists i ≡ x ∷ xs
    → s.current ≡ x
    → AllDistinct (x ∷ xs)
    → (s' : Scheduler) × (switches (length (x ∷ xs)) s ≡ some (xs ++ (x ∷ []), s'))
      × (s'.current ≡ x)
      × ((p : ℕ) → s'.task_lists p ≡ s.task_lists p)
unfolding next
switches-round_robin i x xs s small above list at_cursor distinct =
    let n = length (x ∷ xs) in
    let r = switches-turned n i (x ∷ xs) s small (above, list, at_cursor, distinct) in
    let around : turned n (x ∷ xs) ≡ x ∷ xs =
      ap (turned n) (sym (append-nil (x ∷ xs))) ∙ turned_lem (x ∷ xs) [] in
    let end = subst (λ l. AtCursor i l r.0) around r.2 in
    let ring = xs ++ (x ∷ []) in
    let same_length : n ≡ length ring = omega (arith, length-append xs (x ∷ [])) in
    let all : visited n ring ≡ ring =
      ap (visited n) (sym (append-nil ring))
      ∙ ap (λ k. visited k (ring ++ [])) same_length
      ∙ visited_lem ring [] in
    (
      r.0,
      r.1 ∙ ap (λ l. some (l, r.0)) all,
      end.2,
      λ p. elim (Bool-cases (p == i)) [
        | inl same ↦
            let e = ==→eq p i same in
            ap r.0.task_lists e ∙ end.1 ∙ sym list ∙ ap s.task_lists (sym e)
        | inr apart ↦ r.3 p apart
      ],
    )
