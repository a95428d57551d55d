-- ===== src/Messages.antt =====
-- The calls of src/queue.rs that may block, with `opt_list`: each pass of their loops, which is a critical
-- section, is one step. The queue is the one of Queue, and the wait lists are sequences of the
-- waiting tasks with their wakeup times; what the passes do to the lists by address are list
-- transactions (ListTx). `Time` has 32 bits.
pub mod Passes
pub mod Wakes
pub mod Served
pub mod Woken
use int_os.Base.{
  ℕ, ◌+◌, ◌-◌, Bool, true, false, Option, none, some, List, [], ◌∷◌, ltb, leb, ◌==◌, if◌then◌else◌,
}
use int_os.OpLog.{TaskId}
use int_os.Journal.{Bytes}
use int_os.Queue.{Queue, QueueErr, Result, ok, err, push_back, push_front, dequeue, is_empty}
use int_os.Schedule.{Delayed, max_delay_time, remove_task}
use int_os.Semaphore.{checked_add}
use int_os.Pm.State.{priority_gt}

-- A queue with its wait lists. The woken tasks are those that have left a wait list and have not gone
-- on yet.
pub record Channel : Type 0 where
  pub queue : Queue
  pub blocked_readers : List Delayed
  pub blocked_writers : List Delayed
  pub woken_readers : List TaskId
  pub woken_writers : List TaskId

-- The insertion into a wait list: behind the tasks whose priority is lower.
unfoldable pub insert_waiter : (TaskId → ℕ) → Delayed → List Delayed → List Delayed
unfolding priority_gt
insert_waiter priority d [] = d ∷ []
insert_waiter priority d (e ∷ es) =
    let rest = insert_waiter priority d es in
    if priority_gt (priority d.task) (priority e.task) then e ∷ rest else d ∷ e ∷ es

-- How a pass ends: the call returns, or the task sleeps until a time, or the time overflows.
pub data Pass (A : Type 0) : Type 0 where
  returns : Result A → Pass A
  sleeps : (wakeup_time : ℕ) → Pass A
  panicked : Pass A

-- The wakeup time is computed once.
unfoldable pub wakeup_time : Option ℕ → ℕ → ℕ → Option ℕ
unfolding checked_add
wakeup_time (some w) wait_ticks now = some w
wakeup_time none wait_ticks now = checked_add now wait_ticks

-- The first task of a wait list is made ready.
unfoldable pub wake_reader : Channel → Channel
wake_reader c = elim c.blocked_readers [
  | [] ↦ c
  | d ∷ ds ↦ record c { blocked_readers = ds; woken_readers = d.task ∷ c.woken_readers }
]

unfoldable pub wake_writer : Channel → Channel
wake_writer c = elim c.blocked_writers [
  | [] ↦ c
  | d ∷ ds ↦ record c { blocked_writers = ds; woken_writers = d.task ∷ c.woken_writers }
]

-- The task `t` fails, or blocks, where the queue is full.
unfoldable pub wait_to_send :
    (TaskId → ℕ) → TaskId → ℕ → Option ℕ → ℕ → Channel → Pass (Unit {0}) × Channel
unfolding wakeup_time insert_waiter
wait_to_send priority t wait_ticks set_time now c =
    if wait_ticks == 0
    then (returns (err QueueErr.queue_full), c)
    else elim (wakeup_time set_time wait_ticks now) [
      | none ↦ (panicked, c)
      | some w ↦ (
        sleeps w,
        record c {
          blocked_writers =
              insert_waiter priority (record { task = t; wakeup_time = w }) c.blocked_writers;
        },
      )
    ]

-- A pass of `queue_send_impl` of the task `t`, with the ticks that remain and the wakeup time if it is
-- set.
unfoldable pub queue_send_pass :
    (TaskId → ℕ) → Bool → Bytes → TaskId → ℕ → Option ℕ → ℕ → Channel → Pass (Unit {0}) × Channel
unfolding wake_reader wait_to_send
queue_send_pass priority is_back item t wait_ticks set_time now c =
    elim (if is_back then push_back item c.queue else push_front item c.queue) [
      | ok q ↦ (returns (ok tt), wake_reader (record c { queue = q }))
      | err e ↦ wait_to_send priority t wait_ticks set_time now c
    ]

-- The task `t` fails, or blocks, where the queue is empty.
unfoldable pub wait_to_receive :
    (TaskId → ℕ) → TaskId → ℕ → Option ℕ → ℕ → Channel → Pass Bytes × Channel
unfolding wakeup_time insert_waiter
wait_to_receive priority t wait_ticks set_time now c =
    if wait_ticks == 0
    then (returns (err QueueErr.queue_empty), c)
    else elim (wakeup_time set_time wait_ticks now) [
      | none ↦ (panicked, c)
      | some w ↦ (
        sleeps w,
        record c {
          blocked_readers =
              insert_waiter priority (record { task = t; wakeup_time = w }) c.blocked_readers;
        },
      )
    ]

-- A pass of `queue_receive`, for a type as long as the items.
unfoldable pub queue_receive_pass :
    (TaskId → ℕ) → TaskId → ℕ → Option ℕ → ℕ → Channel → Pass Bytes × Channel
unfolding wake_writer wait_to_receive
queue_receive_pass priority t wait_ticks set_time now c = elim (dequeue c.queue.item_size c.queue) [
  | ok (item, q) ↦ (returns (ok item), wake_writer (record c { queue = q }))
  | err e ↦ wait_to_receive priority t wait_ticks set_time now c
]

-- A wait list without the tasks that are due, and these tasks: what the tick does to it.
unfoldable pub still_waiting : ℕ → List Delayed → List Delayed
still_waiting now [] = []
still_waiting now (d ∷ ds) =
    let rest = still_waiting now ds in if leb d.wakeup_time now then rest else d ∷ rest

unfoldable pub timed_out : ℕ → List Delayed → List TaskId → List TaskId
timed_out now [] ts = ts
timed_out now (d ∷ ds) ts =
    let rest = timed_out now ds ts in if leb d.wakeup_time now then d.task ∷ rest else rest

unfoldable pub wake_timed_out : ℕ → Channel → Channel
unfolding still_waiting timed_out
wake_timed_out now c = record c {
  blocked_readers = still_waiting now c.blocked_readers;
  woken_readers = timed_out now c.blocked_readers c.woken_readers;
  blocked_writers = still_waiting now c.blocked_writers;
  woken_writers = timed_out now c.blocked_writers c.woken_writers;
}
