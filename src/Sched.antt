-- ===== src/Sched.antt =====
-- The lists that tasks are in, src/task.rs: a ready list for each priority, the delay list, and of
-- src/time.rs the list of the active timers. The addresses of the static lists are 0 for the delay
-- list, 1 for the timers and `p + 2` for the priority `p`; wait lists have other addresses.
use int_os.Base.{ltb, update, ℕ, ◌+◌, Bool, true, false}
use int_os.Pm.Run.{◌>>=◌, ◌>>◌, Cmd, pure, write, get, panic, when}
use int_os.OpLog.{ListId, TaskId, Ptr}
use int_os.Pm.State.{Item, Task, TaskState, Kind, Mem}
use int_os.PSorted.{insert}
use int_os.PList.{optimized_remove}
use int_os.PRing.{optimized_insert_before_cursor}

abbrev pub get_delay_list : ListId
get_delay_list = 0

abbrev pub get_timer_active_list : ListId
get_timer_active_list = 1

abbrev pub get_sched_list : ℕ → ListId
get_sched_list prio = prio + 2

-- The task of an item; no list of tasks holds a timer.
unfoldable pub get_task : Item → Cmd TaskId
get_task (Item.sched task _) = pure task
get_task (Item.blocked task _) = pure task
get_task (Item.timer _ _) = panic

abbrev pub task_set : TaskId → (Task → Task) → Mem → Mem
task_set t f m = record m { tasks = update m.tasks t (f (m.tasks t)) }

abbrev pub set_status : TaskId → TaskState → Cmd (Unit {0})
set_status self s = write (task_set self (λ t. record t { status = s }))

abbrev pub complete_list_transaction : TaskId → Cmd (Unit {0})
complete_list_transaction self = write (task_set self (λ t. record t { list_tx_done = true }))

abbrev pub reset_list_transaction : TaskId → Cmd (Unit {0})
reset_list_transaction self = write (task_set self (λ t. record t { list_tx_done = false }))

abbrev pub list_transaction_done : TaskId → Cmd Bool
list_transaction_done self = get (λ m. (m.tasks self).list_tx_done)

abbrev pub current : Cmd TaskId
current = get (λ m. m.current)

abbrev pub get_sched_node_ptr : TaskId → Cmd Ptr
get_sched_node_ptr self = get (λ m. (m.tasks self).sched_node)

abbrev pub get_event_node_ptr : TaskId → Cmd Ptr
get_event_node_ptr self = get (λ m. (m.tasks self).event_node)

abbrev pub get_priority : TaskId → Cmd ℕ
get_priority self = get (λ m. (m.tasks self).priority)

-- The wakeup time stands in the item of the sched node.
unfoldable pub wakeup_of : Item → ℕ
wakeup_of (Item.sched _ time) = time
wakeup_of _ = 0

abbrev pub with_wakeup : ℕ → Item → Item
with_wakeup time (Item.sched t _) = Item.sched t time
with_wakeup time i = i

unfoldable pub get_wakeup_time : TaskId → Cmd ℕ
unfolding wakeup_of
get_wakeup_time self = do n ← get_sched_node_ptr self; get (λ m. wakeup_of (m.value n))

unfoldable pub set_wakeup_time : TaskId → ℕ → Cmd (Unit {0})
set_wakeup_time self time = do
  n ← get_sched_node_ptr self
  write (λ m. record m { value = update m.value n (with_wakeup time (m.value n)) })

unfoldable pub add_to_delayed_list : TaskId → Cmd (Unit {0})
unfolding insert get_wakeup_time
add_to_delayed_list self = do
  sched_node_ptr ← get_sched_node_ptr self
  set_status self TaskState.blocked
  insert Kind.sched_kind get_delay_list sched_node_ptr
  unblock_time ← get_wakeup_time self
  next ← get (λ m. m.next_unblock_time)
  when (ltb unblock_time next) (write (λ m. record m { next_unblock_time = unblock_time }))

unfoldable pub remove_from_delayed_list : TaskId → Cmd (Unit {0})
unfolding optimized_remove
remove_from_delayed_list self = do
  n ← get_sched_node_ptr self
  optimized_remove Kind.sched_kind get_delay_list n

unfoldable pub add_to_ready_list : TaskId → Cmd (Unit {0})
unfolding optimized_insert_before_cursor
add_to_ready_list self = do
  n ← get_sched_node_ptr self
  prio ← get_priority self
  optimized_insert_before_cursor Kind.sched_kind (get_sched_list prio) n
  set_status self TaskState.ready

unfoldable pub remove_from_ready_list : TaskId → Cmd (Unit {0})
unfolding optimized_remove
remove_from_ready_list self = do
  n ← get_sched_node_ptr self
  prio ← get_priority self
  optimized_remove Kind.sched_kind (get_sched_list prio) n
