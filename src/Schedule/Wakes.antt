-- ===== src/Schedule/Wakes.antt =====
-- A task that sleeps in the delay list, and the operations that leave it there (src/task.rs).
use mathlib.Core.Path.{subst}
use mathlib.Core.Option.{some-injective}
use int_os.Base.{
  ℕ, ◌+◌, ◌≤◌, ◌<◌, ◌≡◌, refl, sym, ap, ◌∙◌, inl, inr, arith, Bool, true, false, ◌&&◌, ◌||◌, some,
  List, [], ◌∷◌, ◌++◌, ltb, ◌==◌, has, Bool-cases, usize_mod,
}
use int_os.OpLog.{TaskId}
use int_os.Schedule.{
  Scheduler, Delayed, insert_delayed, remove_task, task_delay, process_tick, next,
  add_to_delayed_list, remove_from_ready_list,
}
use int_os.Semaphore.{checked_add}
use int_os.Schedule.Order.{due, later, with_priority, From-insert_delayed}
use int_os.Schedule.Tick.{IsTimely, process_tick-wakes}

-- The delay list has the task with the wakeup time, and has it with no other one.
abbrev pub sleeps : TaskId → ℕ → List Delayed → Bool
sleeps t w [] = false
sleeps t w (d ∷ ds) = ((d.task == t) && (d.wakeup_time == w)) || sleeps t w ds

abbrev pub Only : TaskId → ℕ → List Delayed → Type 0
Only t w [] = Unit
Only t w (d ∷ ds) = ((d.task == t) ≡ true → d.wakeup_time ≡ w) × Only t w ds

pub sleeps-insert_delayed :
    (t : TaskId) (w : ℕ) (d : Delayed) (ds : List Delayed)
    → ((d.task == t) && (d.wakeup_time == w)) || sleeps t w ds ≡ true
    → sleeps t w (insert_delayed d ds) ≡ true
unfolding insert_delayed
sleeps-insert_delayed t w d [] h = h
sleeps-insert_delayed t w d (e ∷ es) h = elim (Bool-cases (ltb e.wakeup_time d.wakeup_time)) [
  | inl before ↦ rw before (ground (arith, h, sleeps-insert_delayed t w d es))
  | inr behind ↦ rw behind h
]

pub Only-insert_delayed :
    (t : TaskId) (w : ℕ) (d : Delayed) (ds : List Delayed)
    → ((d.task == t) ≡ true → d.wakeup_time ≡ w)
    → Only t w ds
    → Only t w (insert_delayed d ds)
unfolding insert_delayed
Only-insert_delayed t w d [] h o = (h, tt)
Only-insert_delayed t w d (e ∷ es) h o = elim (Bool-cases (ltb e.wakeup_time d.wakeup_time)) [
  | inl before ↦ rw before (o.0, Only-insert_delayed t w d es h o.1)
  | inr behind ↦ rw behind (h, o)
]

sleeps-later :
    (t : TaskId) (w now : ℕ) (ds : List Delayed)
    → now < w
    → sleeps t w ds ≡ true
    → sleeps t w (later now ds) ≡ true
sleeps-later t w now [] h s = s
sleeps-later t w now (d ∷ ds) h s = ground (arith, h, s, sleeps-later t w now ds)

Only-later : (t : TaskId) (w now : ℕ) (ds : List Delayed) → Only t w ds → Only t w (later now ds)
Only-later t w now [] o = tt
Only-later t w now (d ∷ ds) o = elim (Bool-cases (ltb now d.wakeup_time)) [
  | inl left ↦ rw left (o.0, Only-later t w now ds o.1)
  | inr over ↦ rw over (Only-later t w now ds o.1)
]

-- The task is not woken before its time.
pub not_due :
    (t : TaskId) (w now p : ℕ) (prio : TaskId → ℕ) (ds : List Delayed)
    → now < w
    → Only t w ds
    → has t (with_priority prio p (due now ds)) ≡ false
not_due t w now p prio [] h o = refl
not_due t w now p prio (d ∷ ds) h o = elim (Bool-cases (d.task == t)) [
  | inl is_t ↦
      let left : ltb now d.wakeup_time ≡ true = ground (arith, o.0 is_t, h) in
      rw left (not_due t w now p prio ds h o.1)
  | inr other ↦ ground (arith, other, not_due t w now p prio ds h o.1)
]

-- It is woken at its time.
pub is_due :
    (t : TaskId) (w now : ℕ) (prio : TaskId → ℕ) (ds : List Delayed)
    → w ≤ now
    → sleeps t w ds ≡ true
    → has t (with_priority prio (prio t) (due now ds)) ≡ true
is_due t w now prio [] h s = s
is_due t w now prio (d ∷ ds) h s =
    let ih = is_due t w now prio ds h in
    elim (Bool-cases ((d.task == t) && (d.wakeup_time == w))) [
      | inl here ↦
          let same : t ≡ d.task = ground (arith, here) in
          let over : ltb now d.wakeup_time ≡ false = ground (arith, here, h) in
          let prio_same : (prio t == prio d.task) ≡ true = ground (arith, ap prio same) in
          rw (over, prio_same) (ground (arith, same))
      | inr elsewhere ↦
          let r = ih (ground (arith, elsewhere, s)) in
          elim (Bool-cases (ltb now d.wakeup_time)) [
            | inl left ↦ rw left r
            | inr over ↦ rw over (elim (Bool-cases (prio t == prio d.task)) [
              | inl same ↦ rw same (ground (arith, r))
              | inr other ↦ rw other r
            ])
          ]
    ]

pub has-append : (t : TaskId) (xs ys : List TaskId) → has t (xs ++ ys) ≡ (has t xs || has t ys)
has-append t [] ys = refl
has-append t (x ∷ xs) ys = ground (arith, has-append t xs ys)

has-remove_task :
    (t u : TaskId) (xs : List TaskId) → has t xs ≡ false → has t (remove_task u xs) ≡ false
unfolding remove_task
has-remove_task t u [] h = h
has-remove_task t u (x ∷ xs) h = ground (arith, h, has-remove_task t u xs)

pub has-next : (t : TaskId) (xs : List TaskId) → has t xs ≡ false → has t (next xs) ≡ false
unfolding next
has-next t [] h = h
has-next t (x ∷ xs) h = has-append t xs (x ∷ []) ∙ ground (arith, h)

-- The state of the task `t` that sleeps until `w`.
abbrev pub Sleeps : TaskId → ℕ → Scheduler → Type 0
Sleeps t w s =
    IsTimely s
    × (sleeps t w s.delayed_task_list ≡ true)
    × Only t w s.delayed_task_list
    × ((p : ℕ) → has t (s.task_lists p) ≡ false)

pub process_tick-Sleeps :
    (t : TaskId) (w : ℕ) (s : Scheduler)
    → s.tick_counter + 1 < w
    → w < usize_mod
    → Sleeps t w s
    → Sleeps t w (process_tick s)
process_tick-Sleeps t w s before small h =
    let r = process_tick-wakes s h.0 (omega (arith, before, small)) in
    (
      r.3,
      ap (sleeps t w) r.1 ∙ sleeps-later t w (s.tick_counter + 1) s.delayed_task_list before h.1,
      subst (Only t w) (sym r.1) (Only-later t w (s.tick_counter + 1) s.delayed_task_list h.2),
      λ p.
          ap (has t) (r.2 p)
          ∙ has-append t (s.task_lists p) _
          ∙ ground (
            arith,
            h.3 p,
            not_due t w (s.tick_counter + 1) p s.priority s.delayed_task_list before h.2,
          ),
    )

-- What a delay of the current task gives.
pub task_delay-some :
    (n : ℕ) (s s' : Scheduler)
    → task_delay n s ≡ some s'
    → (s.tick_counter + n < usize_mod)
      × (s'
          ≡ add_to_delayed_list s.current (s.tick_counter + n) (remove_from_ready_list s.current s))
unfolding task_delay checked_add
task_delay-some n s s' e = elim (Bool-cases (ltb (s.tick_counter + n) usize_mod)) [
  | inl fits ↦
      (ground (arith, fits), some-injective _ _ (sym (rw (task_delay, checked_add, fits) at e)))
  | inr over ↦ absurd (ground (arith, over, e))
]

pub delayed-IsTimely :
    (u : TaskId) (w : ℕ) (s : Scheduler)
    → IsTimely s
    → IsTimely (add_to_delayed_list u w (remove_from_ready_list u s))
unfolding add_to_delayed_list remove_from_ready_list
delayed-IsTimely u w s f = elim (Bool-cases (ltb w s.next_unblock_time)) [
  | inl earlier ↦ rw earlier (
      From-insert_delayed w s.next_unblock_time _ s.delayed_task_list f (ground (arith, earlier))
        (omega arith))
  | inr not_earlier ↦ rw not_earlier (
      From-insert_delayed s.next_unblock_time s.next_unblock_time _ s.delayed_task_list f
        (omega arith) (ground (arith, not_earlier)))
]

pub delayed_others :
    (t u : TaskId) (w v : ℕ) (s : Scheduler)
    → (u == t) ≡ false
    → Sleeps t w s
    → Sleeps t w (add_to_delayed_list u v (remove_from_ready_list u s))
unfolding add_to_delayed_list remove_from_ready_list
delayed_others t u w v s other h = (
  delayed-IsTimely u v s h.0,
  sleeps-insert_delayed t w (record { task = u; wakeup_time = v }) s.delayed_task_list
      (ground (arith, h.1)),
  Only-insert_delayed t w (record { task = u; wakeup_time = v }) s.delayed_task_list
      (λ same. absurd (ground (arith, same, other))) h.2,
  λ p. elim (Bool-cases (p == s.priority u)) [
    | inl same ↦ rw same (has-remove_task t u (s.task_lists (s.priority u)) (h.3 (s.priority u)))
    | inr apart ↦ rw apart (h.3 p)
  ],
)
