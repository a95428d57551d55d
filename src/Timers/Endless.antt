-- ===== src/Timers/Endless.antt =====
-- A timer with a period of 0 (src/time.rs).
use int_os.Base.{
  if_yes, ℕ, ◌+◌, ◌≤◌, ◌<◌, ◌≡◌, refl, ap, ◌∙◌, arith, true, Option, none, some, List, [], ◌∷◌, map,
  leb, ltb, ◌==◌, usize_mod,
}
use int_os.Schedule.{remove_task}
use int_os.Timers.{
  TimerId, TimeManager, Outcome, call, expiry_of, insert_timer, activate_timer,
  remove_reinsert_into_activelist, process_receive_timer_cmd, daemon_turn,
}
use int_os.Timers.Active.{expire-again}
use int_os.Timers.Turns.{noted, process_expired_timer-front}

-- The timer is the only one in the list, with a period of 0, and expires at `v` at the latest.
abbrev pub Alone : TimerId → ℕ → TimeManager → Type 0
Alone t v s =
    (s.active_timer_list ≡ t ∷ [])
    × ((s.timers t).auto_reload ≡ true)
    × ((s.timers t).period_ticks ≡ 0)
    × (expiry_of s t ≤ v)

-- The times that the daemon reads in its turns do not descend, and do not overflow.
abbrev pub Readings : ℕ → List (ℕ × ℕ) → Type 0
Readings v [] = Unit
Readings v ((first_read, now) ∷ rs) =
    (v ≤ first_read) × (first_read ≤ now) × (now < usize_mod) × Readings now rs

-- Turns without commands, and what they do.
abbrev pub turns : List (ℕ × ℕ) → TimeManager → Option (List Outcome × TimeManager)
turns [] s = some ([], s)
turns ((first_read, now) ∷ rs) s = elim (daemon_turn first_read now [] s) [
  | none ↦ none
  | some (o, s') ↦ elim (turns rs s') [ none ↦ none | some (os, end) ↦ some (o ∷ os, end) ]
]

turn-Alone :
    (t v first_read now : ℕ) (s : TimeManager)
    → Alone t v s
    → v ≤ first_read
    → now < usize_mod
    → (s' : TimeManager) × (daemon_turn first_read now [] s ≡ some (call (s.timers t), s'))
      × (call (s'.timers t) ≡ call (s.timers t))
      × Alone t now s'
unfolding daemon_turn process_receive_timer_cmd remove_reinsert_into_activelist activate_timer call
    remove_task insert_timer
turn-Alone t v first_read now s h from small =
    let due : leb (expiry_of s t) first_read ≡ true = ground (arith, h.3, from) in
    let expiry = now + (s.timers t).period_ticks in
    let fits : ltb expiry usize_mod ≡ true = ground (arith, h.2, small) in
    let run =
      process_expired_timer-front first_read now t [] s h.0 due
      ∙ expire-again t now [] (noted t s) h.1 h.0
      ∙ if_yes _ fits in
    let self : (t == t) ≡ true = ground arith in
    let removed : remove_task t (t ∷ []) ≡ [] = rw self refl in
    let s' = remove_reinsert_into_activelist t (activate_timer t expiry (noted t s)) in
    (
      s',
      rw (daemon_turn, run) refl,
      rw self refl,
      (
        ap (λ l. insert_timer (expiry_of s') t (remove_task t l)) h.0
            ∙ ap (insert_timer (expiry_of s') t) removed,
        rw self h.1,
        rw self h.2,
        rw (expiry_of, self) (omega (arith, h.2)),
      ),
    )

-- A timer that reloads, with a period of 0, is alone in the active list and has expired. In any number of
-- turns of the daemon in which it receives no command, with readings of the time that do not descend
-- and do not overflow, it calls the timer once in each turn, and never waits for a command or for
-- another time.
pub turns-endless :
    (t v : ℕ) (rs : List (ℕ × ℕ)) (s : TimeManager)
    → Alone t v s
    → Readings v rs
    → (s' : TimeManager) × (turns rs s ≡ some (map (λ r. call (s.timers t)) rs, s'))
turns-endless t v [] s h reads = (s, refl)
turns-endless t v ((first_read, now) ∷ rs) s h reads =
    let one = turn-Alone t v first_read now s h reads.0 reads.2 in
    let rest = turns-endless t now rs one.0 one.3 reads.3 in
    (
      rest.0,
      rw (turns, one.1, rest.1)
          (ap (λ o. some (call (s.timers t) ∷ map (λ r. o) rs, rest.0)) one.2),
    )
