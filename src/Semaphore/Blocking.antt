-- ===== src/Semaphore/Blocking.antt =====
-- The passes of `semaphore_take` and the call `semaphore_give` (src/semaphore.rs), with the wait list as a
-- sequence of the waiting tasks with their wakeup times, as in Messages. Each is a critical section and
-- one step. The choice to yield at the end of a give is left out.
use int_os.Base.{ℕ, Option, none, some, List, [], ◌∷◌, ◌==◌, if◌then◌else◌}
use int_os.OpLog.{TaskId}
use int_os.Schedule.{Delayed}
use int_os.Semaphore.{Semaphore, try_take, give}
use int_os.Messages.{insert_waiter, wakeup_time, still_waiting, timed_out}

-- A semaphore with its wait list. The woken tasks have left the list and have not gone on yet.
pub record Shared : Type 0 where
  pub sem : Semaphore
  pub wait_list : List Delayed
  pub woken : List TaskId

-- How a pass ends: the call returns with the semaphore or without it, or the task sleeps until a time,
-- or the time overflows.
pub data Pass : Type 0 where
  takes : Pass
  fails : Pass
  sleeps : (wakeup_time : ℕ) → Pass
  panicked : Pass

-- The task `t` has found no unit.
unfoldable pub wait_to_take : (TaskId → ℕ) → TaskId → ℕ → Option ℕ → ℕ → Shared → Pass × Shared
unfolding wakeup_time insert_waiter
wait_to_take priority t wait_ticks set_time now c =
    if wait_ticks == 0 then (fails, c) else elim (wakeup_time set_time wait_ticks now) [
      | none ↦ (panicked, c)
      | some w ↦ (
        sleeps w,
        record c {
          wait_list = insert_waiter priority (record { task = t; wakeup_time = w }) c.wait_list;
        },
      )
    ]

-- A pass of the loop of the task `t`, with the ticks that remain and the wakeup time if it is set.
unfoldable pub take_pass : (TaskId → ℕ) → TaskId → ℕ → Option ℕ → ℕ → Shared → Pass × Shared
unfolding try_take wait_to_take
take_pass priority t wait_ticks set_time now c = elim (try_take t c.sem) [
  | some s ↦ (takes, record c { sem = s })
  | none ↦ wait_to_take priority t wait_ticks set_time now c
]

-- The first task of the wait list is made ready.
unfoldable pub wake_taker : Shared → Shared
wake_taker c = elim c.wait_list [
  | [] ↦ c
  | d ∷ ds ↦ record c { wait_list = ds; woken = d.task ∷ c.woken }
]

-- `semaphore_give`; `none` where the assertion fails.
unfoldable pub semaphore_give : Shared → Option Shared
unfolding give wake_taker
semaphore_give c = elim (give c.sem) [
  | none ↦ none
  | some (unblock_task, s) ↦
      some (if unblock_task then wake_taker (record c { sem = s }) else record c { sem = s })
]

-- What the tick does to the wait list.
unfoldable pub wake_late : ℕ → Shared → Shared
unfolding still_waiting timed_out
wake_late now c = record c {
  wait_list = still_waiting now c.wait_list;
  woken = timed_out now c.wait_list c.woken;
}
