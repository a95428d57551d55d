-- ===== src/Schedule.antt =====
-- The scheduler of src/task.rs, with `opt_list`: the delay of a task, the tick and the task switch. The
-- lists are sequences here, which the operations on the lists keep (PSorted, PRing): the delay list
-- in the order of the wakeup times, and each ready list from its cursor on, around the ring. The task
-- switch runs no recovery (Syscall, Transaction), and `Time` has 32 bits.
pub mod Order
pub mod Tick
pub mod Wakes
pub mod Steps
pub mod OnTime
pub mod Round
pub mod Skips
pub mod Starves
use int_os.Base.{
  ℕ, zero, suc, ◌+◌, ◌%◌, Bool, true, false, Option, none, some, List, [], ◌∷◌, ◌++◌, ltb, leb,
  ◌==◌, if◌then◌else◌, update, usize_mod,
}
use int_os.OpLog.{TaskId}
use int_os.Pm.State.{TaskState}
use int_os.ListTx.{is_blocked}
use int_os.Semaphore.{checked_add}

abbrev pub num_priority_levels : ℕ
num_priority_levels = 8

abbrev pub max_delay_time : ℕ
max_delay_time = 4294967295

-- `SchedListItem`
pub record Delayed : Type 0 where
  pub task : TaskId
  pub wakeup_time : ℕ

pub record Scheduler : Type 0 where
  pub tick_counter : ℕ
  pub next_unblock_time : ℕ
  pub delayed_task_list : List Delayed
  pub task_lists : ℕ → List TaskId
  pub status : TaskId → TaskState
  pub priority : TaskId → ℕ
  -- whether the event node of the task is in a wait list
  pub waits : TaskId → Bool
  pub current : TaskId

-- The insertion into the delay list: behind the tasks that wake before.
unfoldable pub insert_delayed : Delayed → List Delayed → List Delayed
insert_delayed d [] = d ∷ []
insert_delayed d (e ∷ es) =
    let rest = insert_delayed d es in
    if ltb e.wakeup_time d.wakeup_time then e ∷ rest else d ∷ e ∷ es

-- The removal of a task from a ready list; a cursor at the task moves to the next one.
unfoldable pub remove_task : TaskId → List TaskId → List TaskId
remove_task t [] = []
remove_task t (x ∷ xs) = let rest = remove_task t xs in if x == t then xs else x ∷ rest

unfoldable pub peek_next : List TaskId → Option TaskId
peek_next [] = none
peek_next (x ∷ []) = some x
peek_next (x ∷ y ∷ r) = some y

-- The move of the cursor.
unfoldable pub next : List TaskId → List TaskId
next [] = []
next (x ∷ xs) = xs ++ (x ∷ [])

unfoldable pub remove_from_ready_list : TaskId → Scheduler → Scheduler
unfolding remove_task
remove_from_ready_list t s =
    let p = s.priority t in
    record s { task_lists = update s.task_lists p (remove_task t (s.task_lists p)) }

unfoldable pub add_to_ready_list : TaskId → Scheduler → Scheduler
add_to_ready_list t s =
    let p = s.priority t in
    record s {
      task_lists = update s.task_lists p (s.task_lists p ++ (t ∷ []));
      status = update s.status t TaskState.ready;
    }

unfoldable pub add_to_delayed_list : TaskId → ℕ → Scheduler → Scheduler
unfolding insert_delayed
add_to_delayed_list t unblock_time s = record s {
  status = update s.status t TaskState.blocked;
  delayed_task_list =
      insert_delayed (record { task = t; wakeup_time = unblock_time }) s.delayed_task_list;
  next_unblock_time =
      if ltb unblock_time s.next_unblock_time then unblock_time else s.next_unblock_time;
}

-- `task_delay` of the current task, up to the yield; `none` where the wakeup time overflows.
unfoldable pub task_delay : ℕ → Scheduler → Option Scheduler
unfolding remove_from_ready_list add_to_delayed_list checked_add
task_delay nticks s = elim (checked_add s.tick_counter nticks) [
  | none ↦ none
  | some wakeup_time ↦
      some (add_to_delayed_list s.current wakeup_time (remove_from_ready_list s.current s))
]

-- The first task of the delay list leaves it and its wait list, and is ready.
unfoldable pub wake_front : TaskId → List Delayed → Scheduler → Scheduler
unfolding add_to_ready_list
wake_front t rest s =
    add_to_ready_list t (record s { delayed_task_list = rest; waits = update s.waits t false })

-- The loop of the tick: `ds` is the delay list.
unfoldable pub wake_due : ℕ → List Delayed → Scheduler → Scheduler
unfolding wake_front
wake_due cur_ticks [] s = s
wake_due cur_ticks (d ∷ ds) s =
    let rest = wake_due cur_ticks ds (wake_front d.task ds s) in
    if ltb cur_ticks d.wakeup_time then s else rest

unfoldable pub first_wakeup : List Delayed → ℕ
first_wakeup [] = max_delay_time
first_wakeup (d ∷ ds) = d.wakeup_time

unfoldable pub process_tick : Scheduler → Scheduler
unfolding wake_due first_wakeup
process_tick s =
    let cur_ticks = (s.tick_counter + 1) % usize_mod in
    let ticked = record s { tick_counter = cur_ticks } in
    let woken = wake_due cur_ticks s.delayed_task_list ticked in
    if leb s.next_unblock_time cur_ticks
    then record woken { next_unblock_time = first_wakeup woken.delayed_task_list }
    else ticked

-- `atomic_roll_foward_context_switch`
unfoldable pub context_switch : TaskId → ℕ → Scheduler → Scheduler
unfolding next
context_switch t i s =
    let running = update s.status t TaskState.running in
    let prev =
      if is_blocked (running s.current)
      then running
      else update running s.current TaskState.ready in
    record s {
      status = prev;
      task_lists = update s.task_lists i (next (s.task_lists i));
      current = t;
    }

-- The loop over the priorities, from `i` on, with `k` left.
unfoldable pub switch_from : ℕ → ℕ → Scheduler → Option Scheduler
unfolding peek_next context_switch
switch_from zero i s = none
switch_from (suc k) i s = elim (peek_next (s.task_lists i)) [
  | none ↦ switch_from k (i + 1) s
  | some t ↦ some (if t == s.current then s else context_switch t i s)
]

-- `task_switch`; `none` where no task is alive.
unfoldable pub task_switch : Scheduler → Option Scheduler
unfolding switch_from
task_switch s = switch_from num_priority_levels 0 s
