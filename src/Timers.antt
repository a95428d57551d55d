-- ===== src/Timers.antt =====
-- The timer daemon of src/time.rs, with `opt_list`: the commands and the expiry of timers. The active list
-- is the sequence of its timers; the operations on it by address and their recoveries are those of the
-- list transactions (ListTx). The functions get the times that they read from the clock. `Time` has
-- 32 bits.
pub mod Order
pub mod Active
pub mod Turns
pub mod Called
pub mod Expiry
pub mod Endless
use int_os.Base.{
  ℕ, ◌-◌, Bool, true, false, Option, none, some, List, [], ◌∷◌, ltb, leb, ◌==◌, if◌then◌else◌,
  update,
}
use int_os.Schedule.{remove_task}
use int_os.Semaphore.{checked_add}

abbrev pub TimerId : Type 0
TimerId = ℕ

-- `Timer`, with the expiry time of its node; a callback is a number here.
pub record Timer : Type 0 where
  pub period_ticks : ℕ
  pub callback : ℕ
  pub call_back_is_closure : Bool
  pub param : ℕ
  pub active : Bool
  pub auto_reload : Bool
  pub expiry_time : ℕ

pub data TimerCmd : Type 0 where
  invalid start stop reset delete set_period : TimerCmd

pub record TimerMessage : Type 0 where
  pub cmd : TimerCmd
  pub timer : Option TimerId
  pub opaque : ℕ

pub record TimeManager : Type 0 where
  pub next_expiry_time : ℕ
  pub active_timer_list : List TimerId
  pub timers : TimerId → Timer

-- What the controls send to the daemon, from the time that they read.
unfoldable pub start_timer : ℕ → TimerId → TimerMessage
start_timer now t = record { cmd = TimerCmd.start; timer = some t; opaque = now }

unfoldable pub reset_timer : ℕ → TimerId → TimerMessage
reset_timer now t = record { cmd = TimerCmd.reset; timer = some t; opaque = now }

unfoldable pub delete_timer : TimerId → TimerMessage
delete_timer t = record { cmd = TimerCmd.delete; timer = some t; opaque = 0 }

unfoldable pub change_timer_period : ℕ → TimerId → TimerMessage
change_timer_period new_period t = record {
  cmd = TimerCmd.set_period;
  timer = some t;
  opaque = new_period;
}

unfoldable pub stop_timer : TimerId → TimerMessage
stop_timer t = record { cmd = TimerCmd.stop; timer = some t; opaque = 0 }

-- The insertion into the active list: behind the timers that expire before.
unfoldable pub insert_timer : (TimerId → ℕ) → TimerId → List TimerId → List TimerId
insert_timer expiry t [] = t ∷ []
insert_timer expiry t (u ∷ us) =
    let rest = insert_timer expiry t us in
    if ltb (expiry u) (expiry t) then u ∷ rest else t ∷ u ∷ us

abbrev pub expiry_of : TimeManager → TimerId → ℕ
expiry_of s t = (s.timers t).expiry_time

unfoldable pub activate_timer : TimerId → ℕ → TimeManager → TimeManager
activate_timer t expiry s = record s {
  timers = update s.timers t (record (s.timers t) { active = true; expiry_time = expiry });
}

unfoldable pub deactivate_timer : TimerId → TimeManager → TimeManager
deactivate_timer t s = record s {
  timers = update s.timers t (record (s.timers t) { active = false });
}

unfoldable pub remove_from_activelist : TimerId → TimeManager → TimeManager
unfolding remove_task
remove_from_activelist t s = record s { active_timer_list = remove_task t s.active_timer_list }

unfoldable pub remove_reinsert_into_activelist : TimerId → TimeManager → TimeManager
unfolding remove_task insert_timer
remove_reinsert_into_activelist t s = record s {
  active_timer_list = insert_timer (expiry_of s) t (remove_task t s.active_timer_list);
}

unfoldable pub pop_reinsert_into_activelist : TimeManager → TimeManager
unfolding insert_timer
pop_reinsert_into_activelist s = elim s.active_timer_list [
  | [] ↦ s
  | t ∷ r ↦ record s { active_timer_list = insert_timer (expiry_of s) t r }
]

-- `timer.period_ticks = new_period`
unfoldable pub set_period_ticks : TimerId → ℕ → TimeManager → TimeManager
set_period_ticks t new_period s = record s {
  timers = update s.timers t (record (s.timers t) { period_ticks = new_period });
}

-- The timer starts anew, from a time on; `none` where the expiry time overflows.
unfoldable pub restart_timer : TimerId → ℕ → ℕ → TimeManager → Option TimeManager
unfolding checked_add activate_timer remove_reinsert_into_activelist
restart_timer t from period s = elim (checked_add from period) [
  | none ↦ none
  | some expiry ↦ some (remove_reinsert_into_activelist t (activate_timer t expiry s))
]

-- A command of a timer, at the time `now`.
unfoldable pub process_timer_cmd : TimerCmd → TimerId → ℕ → ℕ → TimeManager → Option TimeManager
unfolding restart_timer deactivate_timer remove_from_activelist set_period_ticks
process_timer_cmd TimerCmd.start t opaque now s = restart_timer t opaque (s.timers t).period_ticks s
process_timer_cmd TimerCmd.reset t opaque now s = restart_timer t opaque (s.timers t).period_ticks s
process_timer_cmd TimerCmd.stop t opaque now s =
    some (remove_from_activelist t (deactivate_timer t s))
process_timer_cmd TimerCmd.delete t opaque now s =
    some (remove_from_activelist t (deactivate_timer t s))
process_timer_cmd TimerCmd.set_period t opaque now s =
    if opaque == 0 then some s else restart_timer t now opaque (set_period_ticks t opaque s)
process_timer_cmd TimerCmd.invalid t opaque now s = some s

-- The daemon takes the messages that it finds, each at a time, until the queue is empty.
unfoldable pub process_receive_timer_cmd :
    List (TimerMessage × ℕ) → TimeManager → Option TimeManager
unfolding process_timer_cmd
process_receive_timer_cmd [] s = some s
process_receive_timer_cmd ((msg, now) ∷ ms) s = elim msg.timer [
  | none ↦ process_receive_timer_cmd ms s
  | some t ↦ elim (process_timer_cmd msg.cmd t msg.opaque now s) [
    | none ↦ none
    | some s' ↦ process_receive_timer_cmd ms s'
  ]
]

-- What the daemon does for the first timer of the list.
pub data Outcome : Type 0 where
  called : (callback param : ℕ) → Outcome
  -- the callback is a closure, which is not called
  not_called : Outcome
  blocked : (ticks : ℕ) → Outcome
  blocked_until_cmd : Outcome
  -- the timer has expired in the meantime
  passed : Outcome

unfoldable pub call : Timer → Outcome
call t = if t.call_back_is_closure then not_called else called t.callback t.param

-- The transaction of an expired timer, which is the first of the list, at the time `now`.
unfoldable pub expire : TimerId → ℕ → TimeManager → Option (Outcome × TimeManager)
unfolding call checked_add activate_timer pop_reinsert_into_activelist deactivate_timer
    remove_from_activelist
expire t now s =
    if (s.timers t).auto_reload
    then elim (checked_add now (s.timers t).period_ticks) [
      | none ↦ none
      | some expiry ↦
          some (call (s.timers t), pop_reinsert_into_activelist (activate_timer t expiry s))
    ]
    else some (call (s.timers t), remove_from_activelist t (deactivate_timer t s))

-- `first_read` is the time of the test, `now` the time that is read behind it.
unfoldable pub process_expired_timer : ℕ → ℕ → TimeManager → Option (Outcome × TimeManager)
unfolding expire
process_expired_timer first_read now s = elim s.active_timer_list [
  | [] ↦ some (blocked_until_cmd, s)
  | t ∷ r ↦
      let expiry = expiry_of s t in
      let noted = record s { next_expiry_time = expiry } in
      if leb expiry first_read
      then expire t now noted
      else some (if ltb now expiry then blocked (expiry - now) else passed, noted)
]

-- A turn of the loop of `daemon_timer_task`.
unfoldable pub daemon_turn :
    ℕ → ℕ → List (TimerMessage × ℕ) → TimeManager → Option (Outcome × TimeManager)
unfolding process_expired_timer process_receive_timer_cmd
daemon_turn first_read now ms s = elim (process_expired_timer first_read now s) [
  | none ↦ none
  | some (o, s') ↦ elim (process_receive_timer_cmd ms s') [ none ↦ none | some s'' ↦ some (o, s'') ]
]
