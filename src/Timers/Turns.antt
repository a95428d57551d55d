-- ===== src/Timers/Turns.antt =====
-- The turns of the timer daemon (src/time.rs, `daemon_timer_task`).
use mathlib.Core.Path.{subst}
use mathlib.Core.Option.{some-injective}
use int_os.Base.{
  if_yes, ◌-◌, ltb, ℕ, ◌≡◌, sym, ap, ◌∙◌, inl, inr, arith, true, false, some, List, [], ◌∷◌, leb,
  has, if◌then◌else◌, Bool-cases, Option-cases, List-cases,
}
use int_os.Schedule.Round.{AllDistinct}
use int_os.Timers.{
  TimerId, TimerMessage, TimeManager, Outcome, blocked_until_cmd, blocked, passed, expiry_of,
  process_timer_cmd, process_receive_timer_cmd, expire, process_expired_timer, daemon_turn,
}
use int_os.Timers.Order.{Ascends}
use int_os.Timers.Active.{IsActiveList, process_timer_cmd-IsActiveList, expire-IsActiveList}

receive-IsActiveList :
    (ms : List (TimerMessage × ℕ)) (s s' : TimeManager)
    → IsActiveList s
    → process_receive_timer_cmd ms s ≡ some s'
    → IsActiveList s'
unfolding process_receive_timer_cmd
receive-IsActiveList [] s s' h e = subst IsActiveList (some-injective _ _ e) h
receive-IsActiveList ((msg, now) ∷ ms) s s' h e = elim (Option-cases msg.timer) [
  | inl absent ↦ receive-IsActiveList ms s s' h (rw (process_receive_timer_cmd, absent) at e)
  | inr (t, given) ↦ elim (Option-cases (process_timer_cmd msg.cmd t msg.opaque now s)) [
    | inl over ↦ absurd (ground (arith, rw (process_receive_timer_cmd, given, over) at e))
    | inr (s₁, done) ↦
        receive-IsActiveList ms s₁ s'
          (process_timer_cmd-IsActiveList msg.cmd t msg.opaque now s s₁ h done)
          (rw (process_receive_timer_cmd, given, done) at e)
  ]
]

-- The manager with the expiry time of its first timer noted.
abbrev pub noted : TimerId → TimeManager → TimeManager
noted t s = record s { next_expiry_time = expiry_of s t }

pub process_expired_timer-front :
    (first_read now t : ℕ) (r : List TimerId) (s : TimeManager)
    → s.active_timer_list ≡ t ∷ r
    → leb (expiry_of s t) first_read ≡ true
    → process_expired_timer first_read now s ≡ expire t now (noted t s)
unfolding process_expired_timer
process_expired_timer-front first_read now t r s front due =
    ap
      (λ l. elim l [
        | [] ↦ some (blocked_until_cmd, s)
        | u ∷ us ↦
            if leb (expiry_of s u) first_read
            then expire u now (noted u s)
            else some (
              if ltb now (expiry_of s u) then blocked (expiry_of s u - now) else passed,
              noted u s,
            )
      ])
      front
    ∙ if_yes _ due

process_expired_timer-IsActiveList :
    (first_read now : ℕ) (s s' : TimeManager) (o : Outcome)
    → IsActiveList s
    → process_expired_timer first_read now s ≡ some (o, s')
    → IsActiveList s'
unfolding process_expired_timer
process_expired_timer-IsActiveList first_read now s s' o h e =
    elim (List-cases s.active_timer_list) [
      | inl empty ↦
          subst IsActiveList
            (ap (λ p. p.1) (some-injective _ _ (rw (process_expired_timer, empty) at e))) h
      | inr (t, r, front) ↦ elim (Bool-cases (leb (expiry_of s t) first_read)) [
        | inl due ↦
            expire-IsActiveList t now r (noted t s) s' o h front
              (sym (process_expired_timer-front first_read now t r s front due) ∙ e)
        | inr left ↦
            let same = some-injective _ _ (rw (process_expired_timer, front, left) at e) in
            subst IsActiveList (ap (λ p. p.1) same) h
      ]
    ]

-- The states of the manager: at first no timer is active, and then the daemon turns. The times that it
-- reads, and the messages that it gets, are any.
pub data Reach : TimeManager → Type 0 where
  idle :
      (s : TimeManager)
      → s.active_timer_list ≡ []
      → ((t : ℕ) → (s.timers t).active ≡ false)
      → Reach s
  turn :
      {s s' : TimeManager} {o : Outcome} (first_read now : ℕ) (ms : List (TimerMessage × ℕ))
      → Reach s
      → daemon_turn first_read now ms s ≡ some (o, s')
      → Reach s'

-- In every state that the daemon reaches its list has exactly the timers that are marked active, each
-- once, in the order of their expiry times.
pub Reach-IsActiveList : {s : TimeManager} → Reach s → IsActiveList s
unfolding daemon_turn
Reach-IsActiveList (idle s empty none_active) = (
  subst (Ascends (expiry_of s) 0) (sym empty) tt,
  subst AllDistinct (sym empty) tt,
  λ t. none_active t ∙ ap (has t) (sym empty),
)
Reach-IsActiveList (turn {s} {s'} {o} first_read now ms run e) =
    let ih = Reach-IsActiveList run in
    elim (Option-cases (process_expired_timer first_read now s)) [
      | inl over ↦ absurd (ground (arith, rw (daemon_turn, over) at e))
      | inr ((p, s₁), done) ↦ elim (Option-cases (process_receive_timer_cmd ms s₁)) [
        | inl over ↦ absurd (ground (arith, rw (daemon_turn, done, over) at e))
        | inr (s₂, received) ↦
            let kept = process_expired_timer-IsActiveList first_read now s s₁ p ih done in
            let same = some-injective _ _ (rw (daemon_turn, done, received) at e) in
            subst IsActiveList (ap (λ q. q.1) same) (receive-IsActiveList ms s₁ s₂ kept received)
      ]
    ]
