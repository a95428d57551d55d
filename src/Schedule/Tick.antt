-- ===== src/Schedule/Tick.antt =====
-- The tick (src/task.rs, `process_tick`).
use mathlib.Core.List.{append-nil, append_assoc}
use int_os.Base.{
  ==→eq, ℕ, ◌+◌, ◌%◌, ◌<◌, ◌≡◌, refl, sym, ap, ◌∙◌, inl, inr, arith, List, [], ◌∷◌, ◌++◌, ltb, leb,
  ◌==◌, Bool-cases, usize_mod,
}
use mathlib.Core.Path.{subst}
use int_os.Schedule.{Scheduler, Delayed, wake_due, wake_front, process_tick, add_to_ready_list}
use int_os.Schedule.Order.{
  From, due, later, with_priority, later_all, From-later, From-first_wakeup,
}

-- The delay list is in order, and no task of it wakes before the next unblock time.
abbrev pub IsTimely : Scheduler → Type 0
IsTimely s = From s.next_unblock_time s.delayed_task_list

-- What the loop of the tick does to the lists, and what it leaves.
abbrev Woken : ℕ → List Delayed → Scheduler → Scheduler → Type 0
Woken now ds s r =
    (r.delayed_task_list ≡ later now ds)
    × ((p : ℕ) → r.task_lists p ≡ s.task_lists p ++ with_priority s.priority p (due now ds))
    × (r.tick_counter ≡ s.tick_counter)
    × (r.priority ≡ s.priority)
    × (r.current ≡ s.current)

wake_front-lists :
    (d : Delayed) (ds rest : List Delayed) (s : Scheduler) (p : ℕ)
    → (wake_front d.task ds s).task_lists p ++ with_priority s.priority p rest
      ≡ s.task_lists p ++ with_priority s.priority p (d ∷ rest)
unfolding wake_front add_to_ready_list
wake_front-lists d ds rest s p = elim (Bool-cases (p == s.priority d.task)) [
  | inl same ↦ rw same (
      append_assoc (s.task_lists (s.priority d.task)) (d.task ∷ [])
        (with_priority s.priority p rest)
      ∙ ap (λ q. s.task_lists q ++ (d.task ∷ with_priority s.priority p rest))
          (sym (==→eq p (s.priority d.task) same)))
  | inr other ↦ rw other refl
]

wake_due-Woken :
    (now w : ℕ) (ds : List Delayed) (s : Scheduler)
    → From w ds
    → s.delayed_task_list ≡ ds
    → Woken now ds s (wake_due now ds s)
unfolding wake_due wake_front add_to_ready_list
wake_due-Woken now w [] s f e = (e, (λ p. sym (append-nil (s.task_lists p))), refl, refl, refl)
wake_due-Woken now w (d ∷ ds) s f e = elim (Bool-cases (ltb now d.wakeup_time)) [
  | inl left ↦
      let all = later_all d.wakeup_time now ds f.1 (ground (arith, left)) in
      rw left (
        e ∙ ap (λ l. d ∷ l) (sym all.0),
        λ p. sym (
            ap (λ l. s.task_lists p ++ with_priority s.priority p l) all.1
            ∙ append-nil (s.task_lists p)),
        refl,
        refl,
        refl,
      )
  | inr over ↦
      let ih = wake_due-Woken now d.wakeup_time ds (wake_front d.task ds s) f.1 refl in
      rw over (ih.0, λ p. ih.1 p ∙ wake_front-lists d ds (due now ds) s p, ih.2, ih.3, ih.4)
]

-- A tick, with the delay list in order and without overflow of the counter: the tasks that are due
-- leave the delay list, and no other; each joins the end of the ready list of its priority, in the
-- order of the wakeup times. The delay list stays in order, and none of its tasks wakes before the
-- next unblock time. The priorities and the current task stay.
pub process_tick-wakes :
    (s : Scheduler)
    → IsTimely s
    → s.tick_counter + 1 < usize_mod
    → let now = s.tick_counter + 1 in
      let s' = process_tick s in
      (s'.tick_counter ≡ now)
      × (s'.delayed_task_list ≡ later now s.delayed_task_list)
      × ((p : ℕ)
          → s'.task_lists p
            ≡ s.task_lists p ++ with_priority s.priority p (due now s.delayed_task_list))
      × IsTimely s'
      × (s'.priority ≡ s.priority)
      × (s'.current ≡ s.current)
unfolding process_tick
process_tick-wakes s f small = elim (Bool-cases (leb s.next_unblock_time (s.tick_counter + 1))) [
  | inl now_due ↦
      let w =
        wake_due-Woken (s.tick_counter + 1) s.next_unblock_time s.delayed_task_list ticked f refl in
      rw (count, now_due)
        (
          w.2,
          w.0,
          w.1,
          From-first_wakeup s.next_unblock_time
              (wake_due (s.tick_counter + 1) s.delayed_task_list ticked).delayed_task_list
              (subst (From s.next_unblock_time) (sym w.0)
                (From-later s.next_unblock_time (s.tick_counter + 1) s.delayed_task_list f)),
          w.3,
          w.4,
        )
  | inr not_due ↦
      let all =
        later_all s.next_unblock_time (s.tick_counter + 1) s.delayed_task_list f
          (ground (arith, not_due)) in
      rw (count, not_due)
        (
          refl,
          sym all.0,
          λ p. sym (
              ap (λ l. s.task_lists p ++ with_priority s.priority p l) all.1
              ∙ append-nil (s.task_lists p)),
          f,
          refl,
          refl,
        )
]
  where
    count : (s.tick_counter + 1) % usize_mod ≡ s.tick_counter + 1
    count = omega (arith, small)

    ticked : Scheduler
    ticked = record s { tick_counter = s.tick_counter + 1 }
