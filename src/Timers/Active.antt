-- ===== src/Timers/Active.antt =====
-- The commands and the expiry keep the active list of timers (src/time.rs).
use mathlib.Core.Path.{subst}
use mathlib.Core.Option.{some-injective}
use int_os.Base.{
  if_yes, if_no, ==→eq, fun_ext, ℕ, ◌≡◌, refl, sym, ap, ◌∙◌, inl, inr, arith, true, false, none,
  some, List, ◌∷◌, usize_mod, ◌+◌, ltb, ◌==◌, has, if◌then◌else◌, Bool-cases, Option-cases,
}
use int_os.Schedule.{remove_task}
use int_os.Schedule.Round.{AllDistinct}
use int_os.Timers.{
  TimerId, TimerCmd, TimeManager, Outcome, expiry_of, activate_timer, deactivate_timer,
  remove_from_activelist, remove_reinsert_into_activelist, pop_reinsert_into_activelist,
  restart_timer, set_period_ticks, process_timer_cmd, expire, call,
}
use int_os.Semaphore.{checked_add}
use int_os.Timers.Order.{
  Ascends, Ascends-insert_timer, Ascends-remove_task, Ascends-frame, has-insert_timer, has-removed,
  AllDistinct-insert_timer, AllDistinct-remove_task,
}

-- The list is in the order of the expiry times, without a timer twice, and has exactly the timers that
-- are marked active.
abbrev pub IsActiveList : TimeManager → Type 0
IsActiveList s =
    Ascends (expiry_of s) 0 s.active_timer_list
    × AllDistinct s.active_timer_list
    × ((t : ℕ) → (s.timers t).active ≡ has t s.active_timer_list)

pub activate-IsActiveList :
    (t e : ℕ) (s : TimeManager)
    → IsActiveList s
    → IsActiveList (remove_reinsert_into_activelist t (activate_timer t e s))
unfolding remove_reinsert_into_activelist activate_timer
activate-IsActiveList t e s h =
    let rest = remove_task t s.active_timer_list in
    let f' = expiry_of (activate_timer t e s) in
    let absent : has t rest ≡ false = has-removed t t s.active_timer_list h.1 ∙ ground arith in
    let order =
      Ascends-frame (expiry_of s) f' 0 t rest (λ u other. rw (expiry_of, other) refl) absent
        (Ascends-remove_task (expiry_of s) 0 t s.active_timer_list h.0) in
    (
      Ascends-insert_timer f' 0 t rest order (omega arith),
      AllDistinct-insert_timer f' t rest absent (AllDistinct-remove_task t s.active_timer_list h.1),
      λ u. elim (Bool-cases (u == t)) [
        | inl same ↦ rw same (sym (has-insert_timer f' u t rest ∙ ground (arith, same)))
        | inr other ↦ rw other (
            h.2 u
            ∙ sym (
                has-insert_timer f' u t rest
                ∙ ground (arith, other, has-removed u t s.active_timer_list h.1)))
      ],
    )

pub deactivate-IsActiveList :
    (t : ℕ) (s : TimeManager)
    → IsActiveList s
    → IsActiveList (remove_from_activelist t (deactivate_timer t s))
unfolding remove_from_activelist deactivate_timer
deactivate-IsActiveList t s h =
    let rest = remove_task t s.active_timer_list in
    let absent : has t rest ≡ false = has-removed t t s.active_timer_list h.1 ∙ ground arith in
    (
      Ascends-frame (expiry_of s) (expiry_of (deactivate_timer t s)) 0 t rest
          (λ u other. rw (expiry_of, other) refl) absent
          (Ascends-remove_task (expiry_of s) 0 t s.active_timer_list h.0),
      AllDistinct-remove_task t s.active_timer_list h.1,
      λ u. elim (Bool-cases (u == t)) [
        | inl same ↦ rw same (sym (has-removed u t s.active_timer_list h.1 ∙ ground (arith, same)))
        | inr other ↦
            rw other (h.2 u ∙ sym (has-removed u t s.active_timer_list h.1 ∙ ground (arith, other)))
      ],
    )

-- A restart that does not overflow.
restart_timer-some :
    (t from period : ℕ) (s s' : TimeManager)
    → restart_timer t from period s ≡ some s'
    → (e : ℕ) × (s' ≡ remove_reinsert_into_activelist t (activate_timer t e s))
unfolding restart_timer
restart_timer-some t from period s s' e = elim (Option-cases (checked_add from period)) [
  | inl over ↦ absurd (ground (arith, rw (restart_timer, over) at e))
  | inr (expiry, found) ↦ (expiry, some-injective _ _ (sym (rw (restart_timer, found) at e)))
]

restart_timer-IsActiveList :
    (t from period : ℕ) (s s' : TimeManager)
    → IsActiveList s
    → restart_timer t from period s ≡ some s'
    → IsActiveList s'
restart_timer-IsActiveList t from period s s' h e =
    let r = restart_timer-some t from period s s' e in
    subst IsActiveList (sym r.1) (activate-IsActiveList t r.0 s h)

-- A change of the period leaves the list.
period-IsActiveList :
    (t period : ℕ) (s : TimeManager) → IsActiveList s → IsActiveList (set_period_ticks t period s)
unfolding set_period_ticks
period-IsActiveList t period s h =
    let same : (u : ℕ) → expiry_of (set_period_ticks t period s) u ≡ expiry_of s u = λ u.
      elim (Bool-cases (u == t)) [
        | inl here ↦
            rw (expiry_of, set_period_ticks, here) (ap (expiry_of s) (sym (==→eq u t here)))
        | inr other ↦ rw (expiry_of, other) refl
      ] in
    (
      subst (λ f. Ascends f 0 s.active_timer_list) (sym (fun_ext same)) h.0,
      h.1,
      λ u. elim (Bool-cases (u == t)) [
        | inl here ↦ rw here (ap (λ v. (s.timers v).active) (sym (==→eq u t here)) ∙ h.2 u)
        | inr other ↦ rw other (h.2 u)
      ],
    )

pub process_timer_cmd-IsActiveList :
    (cmd : TimerCmd) (t opaque now : ℕ) (s s' : TimeManager)
    → IsActiveList s
    → process_timer_cmd cmd t opaque now s ≡ some s'
    → IsActiveList s'
unfolding process_timer_cmd
process_timer_cmd-IsActiveList TimerCmd.invalid t opaque now s s' h e =
    subst IsActiveList (some-injective _ _ e) h
process_timer_cmd-IsActiveList TimerCmd.start t opaque now s s' h e =
    restart_timer-IsActiveList t opaque (s.timers t).period_ticks s s' h e
process_timer_cmd-IsActiveList TimerCmd.reset t opaque now s s' h e =
    restart_timer-IsActiveList t opaque (s.timers t).period_ticks s s' h e
process_timer_cmd-IsActiveList TimerCmd.stop t opaque now s s' h e =
    subst IsActiveList (some-injective _ _ e) (deactivate-IsActiveList t s h)
process_timer_cmd-IsActiveList TimerCmd.delete t opaque now s s' h e =
    subst IsActiveList (some-injective _ _ e) (deactivate-IsActiveList t s h)
process_timer_cmd-IsActiveList TimerCmd.set_period t opaque now s s' h e =
    elim (Bool-cases (opaque == 0)) [
      | inl none_given ↦
          subst IsActiveList (some-injective _ _ (rw (process_timer_cmd, none_given) at e)) h
      | inr given ↦
          restart_timer-IsActiveList t now opaque (set_period_ticks t opaque s) s'
            (period-IsActiveList t opaque s h) (rw (process_timer_cmd, given) at e)
    ]

-- The first timer of the list, which is removed from the front or from anywhere.
pop-remove :
    (t : ℕ) (r : List TimerId) (s : TimeManager)
    → s.active_timer_list ≡ t ∷ r
    → pop_reinsert_into_activelist s ≡ remove_reinsert_into_activelist t s
unfolding pop_reinsert_into_activelist remove_reinsert_into_activelist remove_task
pop-remove t r s e =
    let front : remove_task t (t ∷ r) ≡ r = ground arith in
    rw (pop_reinsert_into_activelist, remove_reinsert_into_activelist, e, front) refl

pub expire-once :
    (t now : ℕ) (s : TimeManager)
    → (s.timers t).auto_reload ≡ false
    → expire t now s ≡ some (call (s.timers t), remove_from_activelist t (deactivate_timer t s))
unfolding expire
expire-once t now s once = if_no _ once

pub expire-again :
    (t now : ℕ) (r : List TimerId) (s : TimeManager)
    → (s.timers t).auto_reload ≡ true
    → s.active_timer_list ≡ t ∷ r
    → let expiry = now + (s.timers t).period_ticks in
      expire t now s ≡ (
        if ltb expiry usize_mod
        then some (call (s.timers t), remove_reinsert_into_activelist t (activate_timer t expiry s))
        else none)
unfolding expire checked_add activate_timer
expire-again t now r s again front =
    let expiry = now + (s.timers t).period_ticks in
    if_yes _ again ∙ elim (Bool-cases (ltb expiry usize_mod)) [
      | inl fits ↦
          ap
            (λ b. elim (if b then some expiry else none) [
              | none ↦ none
              | some e ↦
                  some (call (s.timers t), pop_reinsert_into_activelist (activate_timer t e s))
            ])
            fits
          ∙ ap (λ m. some (call (s.timers t), m)) (pop-remove t r (activate_timer t expiry s) front)
          ∙ sym (if_yes _ fits)
      | inr over ↦
          ap
            (λ b. elim (if b then some expiry else none) [
              | none ↦ none
              | some e ↦
                  some (call (s.timers t), pop_reinsert_into_activelist (activate_timer t e s))
            ])
            over
          ∙ sym (if_no _ over)
    ]

pub expire-IsActiveList :
    (t now : ℕ) (r : List TimerId) (s s' : TimeManager) (o : Outcome)
    → IsActiveList s
    → s.active_timer_list ≡ t ∷ r
    → expire t now s ≡ some (o, s')
    → IsActiveList s'
expire-IsActiveList t now r s s' o h front e = elim (Bool-cases (s.timers t).auto_reload) [
  | inl again ↦
      let expiry = now + (s.timers t).period_ticks in
      let run = sym (expire-again t now r s again front) ∙ e in
      elim (Bool-cases (ltb expiry usize_mod)) [
        | inl fits ↦
            subst IsActiveList (ap (λ p. p.1) (some-injective _ _ (sym (if_yes _ fits) ∙ run)))
              (activate-IsActiveList t expiry s h)
        | inr over ↦
            let stopped : none ≡ some (o, s') = sym (if_no _ over) ∙ run in
            absurd (ground (arith, stopped))
      ]
  | inr once ↦
      subst IsActiveList (ap (λ p. p.1) (some-injective _ _ (sym (expire-once t now s once) ∙ e)))
        (deactivate-IsActiveList t s h)
]
