-- ===== src/Schedule/OnTime.antt =====
-- How long a task sleeps that delays itself (src/task.rs).
use mathlib.Core.Path.{subst}
use int_os.Base.{
  ℕ, ◌+◌, ◌<◌, ◌≡◌, refl, sym, ap, ◌∙◌, inl, inr, arith, Bool, true, false, ◌||◌, some, List, [],
  ◌∷◌, ◌==◌, has, Bool-cases, usize_mod,
}
use int_os.OpLog.{TaskId}
use int_os.Schedule.{
  Scheduler, Delayed, task_delay, process_tick, add_to_delayed_list, remove_from_ready_list,
}
use int_os.Schedule.Tick.{IsTimely, process_tick-wakes}
use int_os.Schedule.Wakes.{
  sleeps, Only, Sleeps, has-append, is_due, not_due, not_due, delayed-IsTimely, task_delay-some,
  sleeps-insert_delayed, Only-insert_delayed,
}
use int_os.Schedule.Steps.{Steps, delayed_keeps, Steps-Sleeps}

-- Whether the task is in the delay list.
abbrev pub is_delayed : TaskId → List Delayed → Bool
is_delayed t [] = false
is_delayed t (d ∷ ds) = (d.task == t) || is_delayed t ds

Only-absent : (t : TaskId) (w : ℕ) (ds : List Delayed) → is_delayed t ds ≡ false → Only t w ds
Only-absent t w [] h = tt
Only-absent t w (d ∷ ds) h =
    (λ same. absurd (ground (arith, h, same)), Only-absent t w ds (ground (arith, h)))

delayed-Sleeps :
    (t : TaskId) (w : ℕ) (s : Scheduler)
    → IsTimely s
    → is_delayed t s.delayed_task_list ≡ false
    → ((p : ℕ) → has t ((remove_from_ready_list t s).task_lists p) ≡ false)
    → Sleeps t w (add_to_delayed_list t w (remove_from_ready_list t s))
unfolding add_to_delayed_list remove_from_ready_list
delayed-Sleeps t w s f absent once = (
  delayed-IsTimely t w s f,
  sleeps-insert_delayed t w (record { task = t; wakeup_time = w }) _ (ground arith),
  Only-insert_delayed t w (record { task = t; wakeup_time = w }) _ (λ same. refl)
      (Only-absent t w s.delayed_task_list absent),
  once,
)

woken_now :
    (t : TaskId) (w : ℕ) (s : Scheduler)
    → s.tick_counter < w
    → w < usize_mod
    → Sleeps t w s
    → has t ((process_tick s).task_lists (s.priority t)) ≡ (w == s.tick_counter + 1)
woken_now t w s before small h =
    let now = s.tick_counter + 1 in
    let r = process_tick-wakes s h.0 (omega (arith, before, small)) in
    let e = ap (has t) (r.2 (s.priority t)) ∙ has-append t (s.task_lists (s.priority t)) _ in
    elim (Bool-cases (w == now)) [
      | inl at ↦
          e
          ∙ ground
              (arith, at, is_due t w now s.priority s.delayed_task_list (ground (arith, at)) h.1)
      | inr still ↦
          e
          ∙ ground (
            arith,
            still,
            h.3 (s.priority t),
            not_due t w now (s.priority t) s.priority s.delayed_task_list
                (ground (arith, still, before)) h.2,
          )
    ]

-- The current task, which is in its ready list once and not in the delay list, delays itself for `n`
-- ticks. Whatever else happens, with fewer than `n` ticks (delays of other tasks and task switches),
-- it is in no ready list, and stands in the delay list with its time; the next tick makes it ready if
-- and only if it is the `n`-th. The delay list is in order at the start.
pub task_delay-wakes_on_time :
    (n k : ℕ) (s s₁ s₂ : Scheduler)
    → IsTimely s
    → is_delayed s.current s.delayed_task_list ≡ false
    → ((p : ℕ) → has s.current ((remove_from_ready_list s.current s).task_lists p) ≡ false)
    → task_delay n s ≡ some s₁
    → Steps s.current s₁ k s₂
    → k < n
    → ((p : ℕ) → has s.current (s₂.task_lists p) ≡ false)
      × (sleeps s.current (s.tick_counter + n) s₂.delayed_task_list ≡ true)
      × (has s.current ((process_tick s₂).task_lists (s.priority s.current)) ≡ (n == k + 1))
task_delay-wakes_on_time n k s s₁ s₂ f absent once e steps fewer =
    let t = s.current in
    let w = s.tick_counter + n in
    let d = task_delay-some n s s₁ e in
    let keeps = delayed_keeps t w s in
    let tick : s₁.tick_counter ≡ s.tick_counter = ap (λ x. x.tick_counter) d.1 ∙ keeps.0 in
    let prio : s₁.priority ≡ s.priority = ap (λ x. x.priority) d.1 ∙ keeps.1 in
    let h = subst (Sleeps t w) (sym d.1) (delayed-Sleeps t w s f absent once) in
    let r = Steps-Sleeps w steps h (omega (arith, tick, fewer)) d.0 in
    let last = woken_now t w s₂ (omega (arith, r.1, tick, fewer)) d.0 r.0 in
    (
      r.0.3,
      r.0.1,
      ap (λ q. has t ((process_tick s₂).task_lists (q t))) (sym (r.2 ∙ prio))
          ∙ last
          ∙ ground (arith, r.1, tick),
    )
