-- ===== src/Semaphore.antt =====
-- The semaphores, src/semaphore.rs (`Semaphore`, with `opt_list`). In `semaphore_take` here a task that
-- goes to sleep comes back with the semaphore as the other tasks left it, and the time; its passes with
-- the wait list are those of Semaphore/Blocking. The moves by address are list transactions (ListTx). `Time` has 32 bits.
pub mod Blocking
pub mod Passes
pub mod Holders
pub mod Deadline
use int_os.Base.{
  ℕ, ◌+◌, ◌-◌, Bool, true, false, Option, none, some, List, [], ◌∷◌, ltb, leb, ◌==◌, link_eq,
  if◌then◌else◌, usize_mod,
}
use int_os.OpLog.{TaskId}

pub record Semaphore : Type 0 where
  pub count : ℕ
  pub mutex_holder : Option TaskId
  pub is_mutex : Bool
  pub size : ℕ

-- `Semaphore::new`, allocated
unfoldable pub new : ℕ → Semaphore
new count = record { count = count; mutex_holder = none; is_mutex = count == 1; size = count }

unfoldable pub try_take : TaskId → Semaphore → Option Semaphore
try_take task s =
    if ltb 0 s.count
    then some (record s { count = s.count - 1; mutex_holder = some task })
    else none

-- `none` where the assertion fails; the Boolean says that a waiting task is to be woken.
unfoldable pub give : Semaphore → Option (Bool × Semaphore)
give s =
    if s.count == s.size
    then some (false, s)
    else if ltb s.count s.size
    then some (true, record s { count = s.count + 1 })
    else none

-- `update_countdown` of src/time.rs: the ticks that remain at the time `cur_time`.
unfoldable pub update_countdown : ℕ → ℕ → ℕ
update_countdown expiry_time cur_time =
    if leb expiry_time cur_time then 0 else expiry_time - cur_time

-- `checked_add` of two times
unfoldable pub checked_add : ℕ → ℕ → Option ℕ
checked_add a b = if ltb (a + b) usize_mod then some (a + b) else none

pub data Taken : Type 0 where
  taken : Semaphore → Taken
  timed_out : Taken
  -- the deadline overflows
  panicked : Taken
  -- asleep, and not woken by the events given
  asleep : Taken

-- What the task finds when it comes back: the semaphore, and the time.
pub record Wake : Type 0 where
  pub semaphore : Semaphore
  pub ticks : ℕ

-- The loop of `semaphore_take` behind the first wait, with the deadline set.
unfoldable pub take_until : TaskId → ℕ → Semaphore → ℕ → List Wake → Taken
unfolding try_take update_countdown
take_until task wakeup_time s wait_ticks [] = elim (try_take task s) [
  | some s' ↦ taken s'
  | none ↦ if wait_ticks == 0 then timed_out else asleep
]
take_until task wakeup_time s wait_ticks (w ∷ ws) =
    let rest = take_until task wakeup_time w.semaphore (update_countdown wakeup_time w.ticks) ws in
    elim (try_take task s) [
      | some s' ↦ taken s'
      | none ↦ if wait_ticks == 0 then timed_out else rest
    ]

-- `semaphore_take` at the time `now`.
unfoldable pub semaphore_take : TaskId → ℕ → Semaphore → ℕ → List Wake → Taken
unfolding try_take checked_add take_until
semaphore_take task wait_ticks s now wakes =
    if link_eq s.mutex_holder (some task) then taken s else elim (try_take task s) [
      | some s' ↦ taken s'
      | none ↦ if wait_ticks == 0 then timed_out else elim (checked_add now wait_ticks) [
        | none ↦ panicked
        | some wakeup_time ↦ take_until task wakeup_time s wait_ticks wakes
      ]
    ]
