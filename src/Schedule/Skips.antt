-- ===== src/Schedule/Skips.antt =====
-- What a delay and a tick do to the ready list of the current task (src/task.rs).
use mathlib.Core.Path.{subst}
use int_os.Base.{
  ℕ, ◌+◌, ◌<◌, ◌≡◌, refl, sym, ap, ◌∙◌, arith, true, false, Option, none, some, List, [], ◌∷◌, ◌++◌,
  ltb, ◌==◌, has, if◌then◌else◌, update_self, usize_mod,
}
use int_os.OpLog.{TaskId}
use int_os.Schedule.{
  num_priority_levels, Scheduler, task_delay, task_switch, process_tick, context_switch, next,
  insert_delayed, remove_task, add_to_delayed_list, remove_from_ready_list,
}
use int_os.Semaphore.{checked_add}
use int_os.Schedule.Order.{From, due, later, with_priority}
use int_os.Schedule.Tick.{process_tick-wakes, IsTimely}
use int_os.Schedule.Wakes.{delayed-IsTimely}
use int_os.Schedule.Round.{task_switch-some, AtCursor, AllDistinct-append}

-- The current task delays itself for a tick, and yields.
abbrev pub delay_switch : Scheduler → Option Scheduler
delay_switch s = elim (task_delay 1 s) [ none ↦ none | some s' ↦ task_switch s' ]

-- The only task in the delay list wakes at the next tick.
abbrev pub Asleep : TaskId → Scheduler → Type 0
Asleep t s =
    (s.delayed_task_list ≡ record { task = t; wakeup_time = s.tick_counter + 1 } ∷ []) × IsTimely s

-- The current task sleeps; the one behind it goes to the end, and the one behind that runs.
pub delay_switch-skips :
    (i x p q : ℕ) (rest : List TaskId) (s : Scheduler)
    → i < num_priority_levels
    → AtCursor i (x ∷ p ∷ q ∷ rest) s
    → s.priority x ≡ i
    → s.delayed_task_list ≡ []
    → s.tick_counter + 1 < usize_mod
    → (s' : Scheduler) × (delay_switch s ≡ some s')
      × AtCursor i (q ∷ rest ++ (p ∷ [])) s'
      × Asleep x s'
      × (s'.tick_counter ≡ s.tick_counter)
      × (s'.priority ≡ s.priority)
unfolding task_delay checked_add add_to_delayed_list remove_from_ready_list insert_delayed
    remove_task context_switch next
delay_switch-skips i x p q rest s level h prio none_delayed small =
    let a = s.current in
    let w = s.tick_counter + 1 in
    let fits : ltb w usize_mod ≡ true = ground (arith, small) in
    let at : s.priority a ≡ i = ap s.priority h.2 ∙ prio in
    let s₁ = add_to_delayed_list a w (remove_from_ready_list a s) in
    let delayed : task_delay 1 s ≡ some s₁ = rw (task_delay, checked_add, fits) refl in
    let list : s₁.task_lists i ≡ p ∷ q ∷ rest =
      ap (λ j. s₁.task_lists j) (sym at)
      ∙ update_self s.task_lists (s.priority a) _
      ∙ ap (λ j. remove_task a (s.task_lists j)) at
      ∙ ap (remove_task a) h.1
      ∙ ground (arith, h.2) in
    let above : (j : ℕ) → j < i → s₁.task_lists j ≡ [] = λ j below.
      let apart : (j == s.priority a) ≡ false = ground (arith, below, at) in
      rw apart (h.0 j below) in
    let switched = task_switch-some i p q rest s₁ level above list (ground (arith, h.2, h.3.0)) in
    (
      context_switch q i s₁,
      rw (delay_switch, delayed) switched,
      (
        λ j below. let apart : (j == i) ≡ false = ground (arith, below) in rw apart (above j below),
        update_self s₁.task_lists i (next (s₁.task_lists i)) ∙ ap next list,
        refl,
        AllDistinct-append p (q ∷ rest) h.3.1.0 h.3.1.1,
      ),
      (
        ap (insert_delayed (record { task = a; wakeup_time = w })) none_delayed
            ∙ ap (λ t. record { task = t; wakeup_time = w } ∷ []) h.2,
        delayed-IsTimely a w s (subst (From s.next_unblock_time) (sym none_delayed) tt),
      ),
      refl,
      refl,
    )

-- The tick wakes the only task of the delay list.
ticked_lists :
    (a i : ℕ) (s : Scheduler)
    → s.delayed_task_list ≡ record { task = a; wakeup_time = s.tick_counter + 1 } ∷ []
    → s.priority a ≡ i
    → IsTimely s
    → s.tick_counter + 1 < usize_mod
    → ((process_tick s).delayed_task_list ≡ [])
      × ((p : ℕ)
          → (process_tick s).task_lists p ≡ s.task_lists p ++ (if p == i then a ∷ [] else []))
ticked_lists a i s only prio timely small =
    let w = process_tick-wakes s timely small in
    let over : ltb (s.tick_counter + 1) (s.tick_counter + 1) ≡ false = ground arith in
    (
      w.1 ∙ ap (later (s.tick_counter + 1)) only ∙ rw over refl,
      λ p.
          w.2 p
          ∙ ap (λ l. s.task_lists p ++ with_priority s.priority p (due (s.tick_counter + 1) l)) only
          ∙ rw (over, prio) refl,
    )

-- The tick wakes the task that sleeps, and the switch takes the next task.
pub tick_switch :
    (i a d b e : ℕ) (s : Scheduler)
    → i < num_priority_levels
    → AtCursor i (a ∷ d ∷ b ∷ []) s
    → has e (a ∷ d ∷ b ∷ []) ≡ false
    → Asleep e s
    → s.priority e ≡ i
    → s.tick_counter + 1 < usize_mod
    → (s' : Scheduler) × (task_switch (process_tick s) ≡ some s')
      × AtCursor i (d ∷ b ∷ e ∷ a ∷ []) s'
      × (s'.delayed_task_list ≡ [])
      × (s'.tick_counter ≡ s.tick_counter + 1)
      × (s'.priority ≡ s.priority)
unfolding context_switch next
tick_switch i a d b e s level h apart_e asleep prio small =
    let t = process_tick s in
    let w = process_tick-wakes s asleep.1 small in
    let woken = ticked_lists e i s asleep.0 prio asleep.1 small in
    let self : (i == i) ≡ true = ground arith in
    let list : t.task_lists i ≡ a ∷ d ∷ b ∷ e ∷ [] =
      woken.1 i ∙ rw self (ap (λ l. l ++ (e ∷ [])) h.1) in
    let above : (j : ℕ) → j < i → t.task_lists j ≡ [] = λ j below.
      let apart : (j == i) ≡ false = ground (arith, below) in
      woken.1 j ∙ rw apart (ap (λ l. l ++ []) (h.0 j below)) in
    let distinct = AllDistinct-append e (a ∷ d ∷ b ∷ []) apart_e h.3 in
    let other : (d == t.current) ≡ false = ground (arith, w.5, h.2, distinct.0) in
    (
      context_switch d i t,
      task_switch-some i a d (b ∷ e ∷ []) t level above list other,
      (
        λ j below. let apart : (j == i) ≡ false = ground (arith, below) in rw apart (above j below),
        update_self t.task_lists i (next (t.task_lists i)) ∙ ap next list,
        refl,
        AllDistinct-append a (d ∷ b ∷ e ∷ []) distinct.0 distinct.1,
      ),
      woken.0,
      w.0,
      w.4,
    )
