-- ===== src/Schedule/Steps.antt =====
-- The runs in which a task sleeps (src/task.rs).
use mathlib.Core.Path.{subst}
use mathlib.Core.Option.{some-injective}
use int_os.Base.{
  ==→eq, ℕ, zero, suc, ◌+◌, ◌<◌, ◌≡◌, ◌⊎◌, refl, sym, ap, ◌∙◌, inl, inr, arith, false, some, ◌==◌,
  has, Bool-cases, Option-cases, usize_mod,
}
use int_os.OpLog.{TaskId}
use int_os.Schedule.{
  num_priority_levels, Scheduler, task_delay, process_tick, task_switch, switch_from,
  context_switch, peek_next, next, add_to_delayed_list, remove_from_ready_list,
}
use int_os.Schedule.Tick.{process_tick-wakes}
use int_os.Schedule.Wakes.{
  sleeps, Only, Sleeps, has-next, process_tick-Sleeps, delayed_others, task_delay-some,
}

-- What happens while the task `t` sleeps: a number of ticks, delays of other tasks, and task switches.
pub data Steps (t : TaskId) (s : Scheduler) : ℕ → Scheduler → Type 0 where
  start : Steps t s 0 s
  tick : {k : ℕ} {s' : Scheduler} → Steps t s k s' → Steps t s (suc k) (process_tick s')
  delay :
      {k : ℕ} {s' s'' : Scheduler} (n : ℕ)
      → Steps t s k s'
      → (s'.current == t) ≡ false
      → task_delay n s' ≡ some s''
      → Steps t s k s''
  switch :
      {k : ℕ} {s' s'' : Scheduler} → Steps t s k s' → task_switch s' ≡ some s'' → Steps t s k s''

-- A task switch moves the cursor of at most one ready list.
abbrev Switched : Scheduler → Scheduler → Type 0
Switched s s' =
    (s'.tick_counter ≡ s.tick_counter)
    × (s'.next_unblock_time ≡ s.next_unblock_time)
    × (s'.delayed_task_list ≡ s.delayed_task_list)
    × (s'.priority ≡ s.priority)
    × ((p : ℕ) → (s'.task_lists p ≡ s.task_lists p) ⊎ (s'.task_lists p ≡ next (s.task_lists p)))

context_switch-Switched : (t i : ℕ) (s : Scheduler) → Switched s (context_switch t i s)
unfolding context_switch
context_switch-Switched t i s = (
  refl,
  refl,
  refl,
  refl,
  λ p. elim (Bool-cases (p == i)) [
    | inl same ↦ inr (rw same (ap (λ q. next (s.task_lists q)) (sym (==→eq p i same))))
    | inr other ↦ inl (rw other refl)
  ],
)

switch_from-Switched : (k i : ℕ) (s s' : Scheduler) → switch_from k i s ≡ some s' → Switched s s'
unfolding switch_from
switch_from-Switched zero i s s' e = absurd (ground (arith, e))
switch_from-Switched (suc k) i s s' e = elim (Option-cases (peek_next (s.task_lists i))) [
  | inl empty ↦ switch_from-Switched k (i + 1) s s' (rw (switch_from, empty) at e)
  | inr (t, found) ↦ elim (Bool-cases (t == s.current)) [
    | inl same ↦
        subst (Switched s) (some-injective _ _ (rw (switch_from, found, same) at e))
          (refl, refl, refl, refl, λ p. inl refl)
    | inr other ↦
        subst (Switched s) (some-injective _ _ (rw (switch_from, found, other) at e))
          (context_switch-Switched t i s)
  ]
]

Switched-Sleeps :
    (t : TaskId) (w : ℕ) (s s' : Scheduler) → Switched s s' → Sleeps t w s → Sleeps t w s'
Switched-Sleeps t w s s' c h = (
  rw (c.1, c.2) h.0,
  ap (sleeps t w) c.2 ∙ h.1,
  subst (Only t w) (sym c.2) h.2,
  λ p. elim (c.4 p) [
    | inl same ↦ ap (has t) same ∙ h.3 p
    | inr moved ↦ ap (has t) moved ∙ has-next t (s.task_lists p) (h.3 p)
  ],
)

pub delayed_keeps :
    (u : TaskId) (v : ℕ) (s : Scheduler)
    → ((add_to_delayed_list u v (remove_from_ready_list u s)).tick_counter ≡ s.tick_counter)
      × ((add_to_delayed_list u v (remove_from_ready_list u s)).priority ≡ s.priority)
unfolding add_to_delayed_list remove_from_ready_list
delayed_keeps u v s = (refl, refl)

pub Steps-Sleeps :
    {t : TaskId} {s s' : Scheduler} {k : ℕ} (w : ℕ)
    → Steps t s k s'
    → Sleeps t w s
    → s.tick_counter + k < w
    → w < usize_mod
    → Sleeps t w s' × (s'.tick_counter ≡ s.tick_counter + k) × (s'.priority ≡ s.priority)
unfolding task_switch
Steps-Sleeps w start h before small = (h, omega arith, refl)
Steps-Sleeps {t} {s} w (tick {k} {s'} st) h before small =
    let ih = Steps-Sleeps w st h (omega (arith, before)) small in
    let r = process_tick-wakes s' ih.0.0 (omega (arith, ih.1, before, small)) in
    (
      process_tick-Sleeps t w s' (omega (arith, ih.1, before)) small ih.0,
      omega (arith, r.0, ih.1),
      r.4 ∙ ih.2,
    )
Steps-Sleeps {t} {s} w (delay {k} {s'} {s''} n st other e) h before small =
    let ih = Steps-Sleeps w st h before small in
    let d = task_delay-some n s' s'' e in
    let u = s'.current in
    let keeps = delayed_keeps u (s'.tick_counter + n) s' in
    rw d.1
      (delayed_others t u w (s'.tick_counter + n) s' other ih.0, keeps.0 ∙ ih.1, keeps.1 ∙ ih.2)
Steps-Sleeps {t} {s} w (switch {k} {s'} {s''} st e) h before small =
    let ih = Steps-Sleeps w st h before small in
    let c = switch_from-Switched num_priority_levels 0 s' s'' e in
    (Switched-Sleeps t w s' s'' c ih.0, c.0 ∙ ih.1, c.3 ∙ ih.2)
