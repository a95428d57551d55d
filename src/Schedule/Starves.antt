-- ===== src/Schedule/Starves.antt =====
-- A ready task that the task switch passes over (src/task.rs, with the removal of src/list.rs).
use int_os.Base.{
  ℕ, zero, suc, ◌+◌, ◌<◌, ◌≡◌, refl, ap, ◌∙◌, arith, true, false, Option, none, some, List, [], ◌∷◌,
  ◌++◌, has, usize_mod,
}
use int_os.OpLog.{TaskId}
use int_os.Schedule.{num_priority_levels, Scheduler, task_switch, process_tick}
use int_os.Schedule.Round.{AtCursor}
use int_os.Schedule.Skips.{delay_switch, Asleep, delay_switch-skips, tick_switch}

-- A tick, with the task switch that follows it; the task that it switches to delays itself for a tick,
-- and yields. The tasks that are switched to, in order.
abbrev pub tick_round : Scheduler → Option (List TaskId × Scheduler)
tick_round s = elim (task_switch (process_tick s)) [
  | none ↦ none
  | some s₁ ↦ elim (delay_switch s₁) [
    | none ↦ none
    | some s₂ ↦ some (s₁.current ∷ s₂.current ∷ [], s₂)
  ]
]

abbrev pub tick_rounds : ℕ → Scheduler → Option (List TaskId × Scheduler)
tick_rounds zero s = some ([], s)
tick_rounds (suc k) s = elim (tick_round s) [
  | none ↦ none
  | some (ts, s') ↦ elim (tick_rounds k s') [ none ↦ none | some (us, end) ↦ some (ts ++ us, end) ]
]

-- The first delay, and a number of ticks.
abbrev pub delays : ℕ → Scheduler → Option (List TaskId × Scheduler)
delays k s = elim (delay_switch s) [
  | none ↦ none
  | some s' ↦ elim (tick_rounds k s') [ none ↦ none | some (ts, end) ↦ some (s'.current ∷ ts, end) ]
]

-- Between two ticks: `a` runs, `d` and `b` are ready, and `e` sleeps until the next tick.
abbrev Between : ℕ → TaskId → TaskId → TaskId → TaskId → Scheduler → Type 0
Between i a d b e s =
    AtCursor i (a ∷ d ∷ b ∷ []) s
    × (has e (a ∷ d ∷ b ∷ []) ≡ false)
    × Asleep e s
    × (s.priority a ≡ i)
    × (s.priority d ≡ i)
    × (s.priority e ≡ i)

tick_round-Between :
    (i a d b e : ℕ) (s : Scheduler)
    → i < num_priority_levels
    → Between i a d b e s
    → s.tick_counter + 2 < usize_mod
    → (s' : Scheduler) × (tick_round s ≡ some (d ∷ e ∷ [], s'))
      × Between i e a b d s'
      × (s'.tick_counter ≡ s.tick_counter + 1)
tick_round-Between i a d b e s level h small =
    let t = tick_switch i a d b e s level h.0 h.1 h.2 h.5 (omega (arith, small)) in
    let prio : (u : ℕ) → t.0.priority u ≡ s.priority u = λ u. ap (λ q. q u) t.5 in
    let r =
      delay_switch-skips i d b e (a ∷ []) t.0 level t.2 (prio d ∙ h.4) t.3
        (omega (arith, t.4, small)) in
    let prio' : (u : ℕ) → r.0.priority u ≡ s.priority u = λ u. ap (λ q. q u) r.5 ∙ prio u in
    (
      r.0,
      rw (tick_round, t.1, r.1)
          (ap (λ ts. some (ts, r.0))
            (ap (λ x. x ∷ r.0.current ∷ []) t.2.2 ∙ ap (λ x. d ∷ x ∷ []) r.2.2)),
      (r.2, ground (arith, t.2.3), r.3, prio' e ∙ h.5, prio' a ∙ h.3, prio' d ∙ h.4),
      r.4 ∙ t.4,
    )

tick_rounds-Between :
    (k i a d b e : ℕ) (s : Scheduler)
    → i < num_priority_levels
    → Between i a d b e s
    → s.tick_counter + k + 1 < usize_mod
    → (ts : List TaskId) × (s' : Scheduler) × (tick_rounds k s ≡ some (ts, s'))
      × (has b ts ≡ false)
      × (has b (s'.task_lists i) ≡ true)
tick_rounds-Between zero i a d b e s level h small =
    ([], s, refl, refl, ap (has b) h.0.1 ∙ ground arith)
tick_rounds-Between (suc k) i a d b e s level h small =
    let r = tick_round-Between i a d b e s level h (omega (arith, small)) in
    let rest = tick_rounds-Between k i e a b d r.0 level r.2 (omega (arith, r.3, small)) in
    (
      d ∷ e ∷ rest.0,
      rest.1,
      rw (tick_rounds, r.1, rest.2) refl,
      ground (arith, h.0.3, h.1, rest.3),
      rest.4,
    )

-- Four tasks of a priority are ready, all distinct: the current one at the cursor, `b`, `a` and `d`; no
-- task has a higher priority, and none is delayed. The current task delays itself by one tick and
-- yields. Then, in any number of ticks before the tick counter overflows, each with the task switch
-- that follows it, the task that this switch takes delays itself by one tick and yields. All calls
-- succeed, no switch ever takes `b`, and `b` is in the ready list at the end.
pub delays-starves :
    (k a d b e : ℕ) (s : Scheduler)
    → s.priority e < num_priority_levels
    → AtCursor (s.priority e) (e ∷ b ∷ a ∷ d ∷ []) s
    → s.delayed_task_list ≡ []
    → s.priority a ≡ s.priority e
    → s.priority d ≡ s.priority e
    → s.tick_counter + k + 1 < usize_mod
    → (ts : List TaskId) × (s' : Scheduler) × (delays k s ≡ some (ts, s'))
      × (has b ts ≡ false)
      × (has b (s'.task_lists (s.priority e)) ≡ true)
delays-starves k a d b e s level h none_delayed prio_a prio_d small =
    let i = s.priority e in
    let r =
      delay_switch-skips i e b a (d ∷ []) s level h refl none_delayed (omega (arith, small)) in
    let prio : (u : ℕ) → r.0.priority u ≡ s.priority u = λ u. ap (λ q. q u) r.5 in
    let between : Between i a d b e r.0 =
      (r.2, ground (arith, h.3), r.3, prio a ∙ prio_a, prio d ∙ prio_d, prio e) in
    let rest = tick_rounds-Between k i a d b e r.0 level between (omega (arith, r.4, small)) in
    (
      r.0.current ∷ rest.0,
      rest.1,
      rw (delays, r.1, rest.2) refl,
      ground (arith, r.2.2, h.3, rest.3),
      rest.4,
    )
