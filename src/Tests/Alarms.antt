-- ===== src/Tests/Alarms.antt =====
-- The timer daemon with a few timers (src/time.rs).
use int_os.Base.{
  ℕ, ◌≡◌, refl, arith, Bool-cases, inl, inr, true, false, some, List, [], ◌∷◌, ◌==◌, has,
  if◌then◌else◌, update, usize_mod,
}
use int_os.Semaphore.{checked_add}
use int_os.Schedule.{remove_task}
use int_os.Timers.{
  Timer, TimeManager, called, blocked_until_cmd, start_timer, insert_timer, activate_timer,
  remove_reinsert_into_activelist, restart_timer, process_timer_cmd, process_receive_timer_cmd,
  process_expired_timer, daemon_turn, call, expiry_of,
}
use int_os.Timers.Order.{expired}
use int_os.Timers.Active.{IsActiveList}
use int_os.Timers.Turns.{Reach, idle, turn, Reach-IsActiveList}
use int_os.Timers.Called.{fired, Periodic}
use int_os.Timers.Expiry.{expiries, expiries-called_once}
use int_os.Timers.Endless.{turns, turns-endless}

-- Timer 1 reloads every 10 ticks, and timer 2 runs once after 4.
abbrev first : Timer
first = record {
  period_ticks = 10;
  callback = 101;
  call_back_is_closure = false;
  param = 7;
  active = false;
  auto_reload = true;
  expiry_time = 0;
}

abbrev second : Timer
second = record first { period_ticks = 4; callback = 102; auto_reload = false }

abbrev fresh : TimeManager
fresh = record {
  next_expiry_time = usize_mod;
  active_timer_list = [];
  timers = λ t. if t == 1 then first else second;
}

-- Both are started at the time 20: the second one expires before the first.
abbrev started : TimeManager
started = record fresh {
  active_timer_list = 2 ∷ 1 ∷ [];
  timers =
      update (update fresh.timers 1 (record first { active = true; expiry_time = 30 })) 2
        (record second { active = true; expiry_time = 24 });
}

started-Reach : Reach started
unfolding daemon_turn process_expired_timer process_receive_timer_cmd process_timer_cmd
    restart_timer checked_add activate_timer remove_reinsert_into_activelist remove_task
    insert_timer start_timer
started-Reach =
    turn {s = fresh} {o = blocked_until_cmd} 20 20
      ((start_timer 20 1, 20) ∷ (start_timer 20 2, 21) ∷ [])
      (idle fresh refl
        (λ t. elim (Bool-cases (t == 1)) [ inl one ↦ rw one refl | inr two ↦ rw two refl ]))
      refl

Reach-IsActiveList_example : IsActiveList started
Reach-IsActiveList_example = Reach-IsActiveList started-Reach

periodic : Periodic 32 started
periodic t there = elim (Bool-cases (t == 2)) [
  | inl two ↦ rw two (omega arith, omega arith)
  | inr other ↦ rw other (elim (Bool-cases (t == 1)) [
    | inl one ↦ rw one (omega arith, omega arith)
    | inr neither ↦ rw neither (omega arith, omega arith)
  ])
]

-- At the time 32 both have expired.
expiries-called_once_example :
    (s' : TimeManager) × (expiries 2 32 started ≡ some (called 102 7 ∷ called 101 7 ∷ [], s'))
    × (expired (expiry_of s') 32 s'.active_timer_list ≡ [])
    × ((u : ℕ)
        → s'.timers u
          ≡ (if has u (2 ∷ 1 ∷ []) then fired 32 (started.timers u) else started.timers u))
unfolding call
expiries-called_once_example =
    expiries-called_once 32 started (Reach-IsActiveList started-Reach) periodic

-- A timer whose period is 0.
abbrev busy : TimeManager
busy = record fresh {
  active_timer_list = 5 ∷ [];
  timers = λ t. record first { period_ticks = 0; active = true; expiry_time = 3 };
}

abbrev readings : List (ℕ × ℕ)
readings = (3, 3) ∷ (3, 4) ∷ (90, 91) ∷ []

turns-endless_example :
    (s' : TimeManager) × (turns readings busy
      ≡ some (called 101 7 ∷ called 101 7 ∷ called 101 7 ∷ [], s'))
unfolding call
turns-endless_example =
    turns-endless 5 3 readings busy (refl, refl, refl, omega arith)
      (
        omega arith,
        omega arith,
        omega arith,
        (omega arith, omega arith, omega arith, (omega arith, omega arith, omega arith, tt)),
      )
