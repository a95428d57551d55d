-- ===== src/ListTx/Recovery.antt =====
-- The recoveries of the list transactions, src/list.rs. The operation in progress is finished, then
-- the operations that follow it in the transaction are done.
use int_os.Base.{ℕ, none, some}
use int_os.Pm.Run.{◌>>=◌, ◌>>◌, Cmd, get, unwrap, for_some, pure, panic}
use int_os.OpLog.{get_micro_op, ListTxOpLog, Ptr, TaskId, ListOpCode, get_old_len}
use int_os.Pm.State.{Mem, Kind, TaskState}
use int_os.Sched.{
  get_task, remove_from_delayed_list, add_to_delayed_list, add_to_ready_list, get_sched_node_ptr,
  current, get_delay_list, get_priority, get_sched_list, set_status, get_event_node_ptr,
}
use int_os.PList.{recover_from_failed_pop_front, recover_from_failed_remove, list_of}
use int_os.PRing.{recover_from_failed_insert_before_cursor}
use int_os.PSorted.{recover_from_failed_insert_sorted, insert}
use int_os.ListTx.{leave_waitlist, commit, invalidate}

-- `log.get_micro_op()`, which is undefined behaviour for a number that is no opcode.
unfoldable pub micro_op : (Mem → ListTxOpLog) → Cmd ListOpCode
unfolding get_micro_op
micro_op log = do op ← get (λ m. get_micro_op (log m)); unwrap op

abbrev pub old_len_of : (Mem → ListTxOpLog) → Cmd ℕ
old_len_of log = get (λ m. get_old_len (log m))

abbrev pub list_log : Mem → ListTxOpLog
list_log m = m.log

abbrev pub active_log : Mem → ListTxOpLog
active_log m = m.timer_log

-- The task whose node is in the log.
unfoldable pub task_of : Ptr → Cmd TaskId
unfolding get_task
task_of node = do item ← get (λ m. m.value node); get_task item

-- A node that is still in a list was not popped from it.
unfoldable pub finish_pop : Kind → Ptr → ℕ → Cmd (Unit {0})
unfolding recover_from_failed_pop_front
finish_pop t node old_len = do
  list ← list_of node
  for_some list (λ l. recover_from_failed_pop_front t l node old_len)

unfoldable pub finish_delay_removal : TaskId → ℕ → Cmd (Unit {0})
unfolding recover_from_failed_remove add_to_ready_list
finish_delay_removal task old_len = do
  n ← get_sched_node_ptr task
  recover_from_failed_remove get_delay_list n old_len
  add_to_ready_list task

unfoldable pub finish_ready_removal : TaskId → ℕ → Cmd (Unit {0})
unfolding recover_from_failed_remove
finish_ready_removal task old_len = do
  n ← get_sched_node_ptr task
  prio ← get_priority task
  recover_from_failed_remove (get_sched_list prio) n old_len

unfoldable pub finish_ready_insert : TaskId → ℕ → Cmd (Unit {0})
unfolding recover_from_failed_insert_before_cursor
finish_ready_insert task old_len = do
  n ← get_sched_node_ptr task
  prio ← get_priority task
  recover_from_failed_insert_before_cursor (get_sched_list prio) n old_len
  set_status task TaskState.ready

unfoldable pub finish_delay_insert : TaskId → ℕ → Cmd (Unit {0})
unfolding recover_from_failed_insert_sorted
finish_delay_insert task old_len = do
  n ← get_sched_node_ptr task
  recover_from_failed_insert_sorted get_delay_list n old_len
  set_status task TaskState.blocked

unfoldable pub recover_and_roll_forward_of_waitlist_pop_remove : Cmd (Unit {0})
unfolding micro_op task_of finish_pop remove_from_delayed_list add_to_ready_list
    finish_delay_removal finish_ready_insert commit
recover_and_roll_forward_of_waitlist_pop_remove = do
  opcode ← micro_op list_log
  old_len ← old_len_of list_log
  ptr ← get (λ m. m.log.block_node_ptr)
  node ← unwrap ptr
  elim opcode [
    | ListOpCode.pop_front ↦ (do
      finish_pop Kind.blocked_kind node old_len
      task ← task_of node
      remove_from_delayed_list task
      add_to_ready_list task)
    | ListOpCode.remove ↦ (do task ← task_of node; finish_delay_removal task old_len)
    | ListOpCode.insert_before_cursor ↦ (do task ← task_of node; finish_ready_insert task old_len)
    | ListOpCode.invalid ↦ pure tt
    | _ ↦ panic
  ]
  commit

unfoldable pub recover_and_roll_forward_of_unsorted_waitlist_remove : Cmd (Unit {0})
unfolding micro_op task_of recover_from_failed_remove remove_from_delayed_list add_to_ready_list
    finish_delay_removal finish_ready_insert invalidate
recover_and_roll_forward_of_unsorted_waitlist_remove = do
  opcode ← micro_op list_log
  old_len ← old_len_of list_log
  ptr ← get (λ m. m.log.block_node_ptr)
  node ← unwrap ptr
  elim opcode [
    | ListOpCode.remove ↦ (do
      list ← list_of node
      elim list [
        | none ↦ (do task ← task_of node; finish_delay_removal task old_len)
        | some l ↦ (do
          recover_from_failed_remove l node old_len
          task ← task_of node
          remove_from_delayed_list task
          add_to_ready_list task)
      ])
    | ListOpCode.insert_before_cursor ↦ (do task ← task_of node; finish_ready_insert task old_len)
    | ListOpCode.invalid ↦ pure tt
    | _ ↦ panic
  ]
  invalidate

unfoldable pub recover_and_roll_forward_of_waitlist_insert : Cmd (Unit {0})
unfolding micro_op finish_ready_removal insert add_to_delayed_list recover_from_failed_insert_sorted
    finish_delay_insert invalidate
recover_and_roll_forward_of_waitlist_insert = do
  opcode ← micro_op list_log
  old_len ← old_len_of list_log
  ptr ← get (λ m. m.log.wait_list_ptr)
  wl ← unwrap ptr
  task ← current
  node ← get_event_node_ptr task
  elim opcode [
    | ListOpCode.remove ↦ (do
      finish_ready_removal task old_len
      insert Kind.blocked_kind wl node
      add_to_delayed_list task)
    | ListOpCode.insert_sorted_wait_list ↦ (do
      recover_from_failed_insert_sorted wl node old_len
      add_to_delayed_list task)
    | ListOpCode.insert_sorted_delay_list ↦ finish_delay_insert task old_len
    | ListOpCode.invalid ↦ pure tt
    | _ ↦ panic
  ]
  invalidate

unfoldable pub recover_and_roll_forward_of_delaylist_removal : Cmd (Unit {0})
unfolding micro_op task_of finish_pop leave_waitlist add_to_ready_list recover_from_failed_remove
    finish_ready_insert invalidate
recover_and_roll_forward_of_delaylist_removal = do
  opcode ← micro_op list_log
  old_len ← old_len_of list_log
  ptr ← get (λ m. m.log.block_node_ptr)
  node ← unwrap ptr
  elim opcode [
    | ListOpCode.pop_front ↦ (do
      finish_pop Kind.sched_kind node old_len
      task ← task_of node
      leave_waitlist task
      add_to_ready_list task)
    | ListOpCode.remove ↦ (do
      task ← task_of node
      event_node ← get_event_node_ptr task
      list ← list_of event_node
      wait_list ← unwrap list
      recover_from_failed_remove wait_list event_node old_len
      add_to_ready_list task)
    | ListOpCode.insert_before_cursor ↦ (do task ← task_of node; finish_ready_insert task old_len)
    | ListOpCode.invalid ↦ pure tt
    | _ ↦ panic
  ]
  invalidate

unfoldable pub recover_and_roll_forward_of_delaylist_insert : Cmd (Unit {0})
unfolding micro_op finish_ready_removal add_to_delayed_list finish_delay_insert commit
recover_and_roll_forward_of_delaylist_insert = do
  opcode ← micro_op list_log
  old_len ← old_len_of list_log
  task ← current
  elim opcode [
    | ListOpCode.remove ↦ (do finish_ready_removal task old_len; add_to_delayed_list task)
    | ListOpCode.insert_sorted_delay_list ↦ finish_delay_insert task old_len
    | ListOpCode.invalid ↦ pure tt
    | _ ↦ panic
  ]
  commit

unfoldable pub recover_and_roll_forward_of_readylist_insert : Cmd (Unit {0})
unfolding micro_op finish_ready_insert commit
recover_and_roll_forward_of_readylist_insert = do
  opcode ← micro_op list_log
  old_len ← old_len_of list_log
  ptr ← get (λ m. m.log.task_ptr)
  task ← unwrap ptr
  elim opcode [
    | ListOpCode.insert_before_cursor ↦ finish_ready_insert task old_len
    | ListOpCode.invalid ↦ pure tt
    | _ ↦ panic
  ]
  commit
