-- ===== src/Timers/Called.antt =====
-- One expiry of a timer (src/time.rs).
use mathlib.Core.Path.{subst}
use int_os.Base.{
  if_yes, if_no, ℕ, ◌+◌, ◌<◌, ◌≡◌, refl, sym, ap, ◌∙◌, inl, inr, arith, true, false, some, List,
  ◌∷◌, leb, ltb, ◌==◌, has, if◌then◌else◌, Bool-cases, usize_mod,
}
use int_os.Schedule.{remove_task}
use int_os.Schedule.Round.{AllDistinct}
use int_os.Timers.{
  TimerId, Timer, TimeManager, call, expiry_of, insert_timer, activate_timer, deactivate_timer,
  remove_from_activelist, remove_reinsert_into_activelist, process_expired_timer,
}
use int_os.Timers.Order.{expired, expired-insert_timer, expired-frame, has-insert_timer}
use int_os.Timers.Active.{
  IsActiveList, activate-IsActiveList, deactivate-IsActiveList, expire-once, expire-again,
}
use int_os.Timers.Turns.{noted, process_expired_timer-front}

-- What an expiry leaves of a timer.
abbrev pub fired : ℕ → Timer → Timer
fired now t =
    if t.auto_reload
    then record t { active = true; expiry_time = now + t.period_ticks }
    else record t { active = false }

-- The period of each active timer is not 0, and the next expiry does not overflow.
abbrev pub Periodic : ℕ → TimeManager → Type 0
Periodic now s =
    (t : ℕ)
    → has t s.active_timer_list ≡ true
    → (0 < (s.timers t).period_ticks) × (now + (s.timers t).period_ticks < usize_mod)

-- One expiry: what it does to the timers, and which ones stay to be called.
abbrev pub Step : ℕ → TimerId → List TimerId → TimeManager → TimeManager → Type 0
Step now t r s s' =
    IsActiveList s'
    × ((u : ℕ) → s'.timers u ≡ (if u == t then fired now (s.timers t) else s.timers u))
    × (expired (expiry_of s') now s'.active_timer_list ≡ expired (expiry_of s) now r)
    × ((u : ℕ) → has u s'.active_timer_list ≡ true → has u (t ∷ r) ≡ true)

again-Step :
    (now t : ℕ) (r : List TimerId) (s : TimeManager)
    → IsActiveList s
    → s.active_timer_list ≡ t ∷ r
    → (s.timers t).auto_reload ≡ true
    → 0 < (s.timers t).period_ticks
    → Step now t r s
        (remove_reinsert_into_activelist t (activate_timer t (now + (s.timers t).period_ticks) s))
unfolding remove_reinsert_into_activelist activate_timer remove_task
again-Step now t r s h front again positive =
    let e = now + (s.timers t).period_ticks in
    let s₁ = activate_timer t e s in
    let absent : has t r ≡ false = (subst AllDistinct front h.1).0 in
    let rest : remove_task t s.active_timer_list ≡ r = ap (remove_task t) front ∙ ground arith in
    let later : now < expiry_of s₁ t =
      (let self : (t == t) ≡ true = ground arith in
        rw (expiry_of, self) (omega (arith, positive))) in
    (
      activate-IsActiveList t e s h,
      λ u. elim (Bool-cases (u == t)) [
        | inl same ↦ rw same (sym (if_yes _ again))
        | inr other ↦ rw other refl
      ],
      ap (λ l. expired (expiry_of s₁) now (insert_timer (expiry_of s₁) t l)) rest
          ∙ expired-insert_timer (expiry_of s₁) now t r later
          ∙ expired-frame (expiry_of s) (expiry_of s₁) now t r
              (λ u other. rw (expiry_of, other) refl) absent,
      λ u there.
          sym (
            ap (λ l. has u (insert_timer (expiry_of s₁) t l)) rest
            ∙ has-insert_timer (expiry_of s₁) u t r)
          ∙ there,
    )

once-Step :
    (now t : ℕ) (r : List TimerId) (s : TimeManager)
    → IsActiveList s
    → s.active_timer_list ≡ t ∷ r
    → (s.timers t).auto_reload ≡ false
    → Step now t r s (remove_from_activelist t (deactivate_timer t s))
unfolding remove_from_activelist deactivate_timer remove_task
once-Step now t r s h front once =
    let s₁ = deactivate_timer t s in
    let absent : has t r ≡ false = (subst AllDistinct front h.1).0 in
    let rest : remove_task t s.active_timer_list ≡ r = ap (remove_task t) front ∙ ground arith in
    (
      deactivate-IsActiveList t s h,
      λ u. elim (Bool-cases (u == t)) [
        | inl same ↦ rw same (sym (if_no _ once))
        | inr other ↦ rw other refl
      ],
      ap (expired (expiry_of s₁) now) rest
          ∙ expired-frame (expiry_of s) (expiry_of s₁) now t r
              (λ u other. rw (expiry_of, other) refl) absent,
      λ u there. ground (arith, sym (ap (has u) rest) ∙ there),
    )

-- The first timer has expired: it is called.
pub expire-Step :
    (now t : ℕ) (r : List TimerId) (s : TimeManager)
    → IsActiveList s
    → Periodic now s
    → s.active_timer_list ≡ t ∷ r
    → leb (expiry_of s t) now ≡ true
    → (s' : TimeManager) × (process_expired_timer now now s ≡ some (call (s.timers t), s'))
      × Step now t r s s'
expire-Step now t r s h periodic front due =
    let p = periodic t (ap (has t) front ∙ ground arith) in
    let run = process_expired_timer-front now now t r s front due in
    let fits : ltb (now + (s.timers t).period_ticks) usize_mod ≡ true = ground (arith, p) in
    elim (Bool-cases (s.timers t).auto_reload) [
      | inl again ↦ (
        _,
        run ∙ expire-again t now r (noted t s) again front ∙ if_yes _ fits,
        again-Step now t r (noted t s) h front again p.0,
      )
      | inr once ↦
          (_, run ∙ expire-once t now (noted t s) once, once-Step now t r (noted t s) h front once)
    ]
