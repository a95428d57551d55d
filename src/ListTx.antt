-- ===== src/ListTx.antt =====
-- The list transactions, src/list.rs: a task moves from one list to another in several operations,
-- and the log names the transaction and the operation in progress, so that the recovery can finish
-- it. The features are `opt_list` and `crash_safe`.
pub mod Recovery
pub mod Boot
pub mod Unlogged
pub mod Switch
pub mod SwitchRecovery
pub mod Switched
use int_os.Base.{
  length, usize_mod, ltb, leb, ◌==◌, if◌then◌else◌, link_eq, link_eq→eq, link_eq_comm, link_eq_refl,
  Bool-cases, Option-cases, ==→eq, leb→le, ltb→lt, bit_and_mask, length-append, has, update,
  update-update, update_comm, update_comm_same, update_eq, update_self, update_ne, ℕ, zero, suc,
  ◌+◌, ◌-◌, ◌*◌, ◌/◌, ◌%◌, ◌^◌, ◌≤◌, ◌<◌, ◌≡◌, refl, sym, ap, ◌∙◌, fun_ext, ◌≢◌, ◌⊎◌, inl, inr,
  Bool, true, false, ◌&&◌, ◌||◌, not, Option, none, some, List, [], ◌∷◌, ◌++◌, map, arith,
}
use int_os.Pm.Run.{◌>>=◌, ◌>>◌, Cmd, write, get, pure, for_some, unwrap}
use int_os.OpLog.{ListTxOpLog, ListTxOpCode, Ptr, TaskId, ListId, ListOpCode, set_micro_op_old_len}
use int_os.PList.{optimized_pop_front, optimized_remove, optimized_insert_front, head_of, list_of}
use int_os.PRing.{next}
use int_os.PSorted.{insert}
use int_os.Sched.{
  set_wakeup_time, remove_from_ready_list, add_to_ready_list, current, remove_from_delayed_list,
  add_to_delayed_list, get_event_node_ptr, get_task, complete_list_transaction,
  list_transaction_done, get_delay_list, get_timer_active_list, set_status,
}
use int_os.Pm.State.{TaskState, Kind}

-- A field of the log of the tasks' lists, and of the log of the timer list.
abbrev pub log_set : (ListTxOpLog → ListTxOpLog) → Cmd (Unit {0})
log_set f = write (λ m. record m { log = f m.log })

abbrev pub timer_log_set : (ListTxOpLog → ListTxOpLog) → Cmd (Unit {0})
timer_log_set f = write (λ m. record m { timer_log = f m.timer_log })

abbrev pub with_op : ListTxOpCode → ListTxOpLog → ListTxOpLog
with_op op log = record log { op = op }

abbrev pub with_no_micro_op : ListTxOpLog → ListTxOpLog
with_no_micro_op log = record log { micro_op_old_len = 0 }

abbrev pub with_block_node_ptr : Option Ptr → ListTxOpLog → ListTxOpLog
with_block_node_ptr ptr log = record log { block_node_ptr = ptr }

abbrev pub with_task_ptr : Option TaskId → ListTxOpLog → ListTxOpLog
with_task_ptr ptr log = record log { task_ptr = ptr }

abbrev pub with_wait_list_ptr : Option ListId → ListTxOpLog → ListTxOpLog
with_wait_list_ptr ptr log = record log { wait_list_ptr = ptr }

unfoldable pub commit : Cmd (Unit {0})
commit = do
  log_set with_no_micro_op
  task ← current
  complete_list_transaction task
  log_set (with_op ListTxOpCode.invalid)

unfoldable pub invalidate : Cmd (Unit {0})
invalidate = do log_set with_no_micro_op; log_set (with_op ListTxOpCode.invalid)

unfoldable pub commit_activelist : Cmd (Unit {0})
commit_activelist = do
  timer_log_set (with_op ListTxOpCode.active_list_tx_committed)
  timer_log_set with_no_micro_op

unfoldable pub invalidate_activelist : Cmd (Unit {0})
invalidate_activelist = timer_log_set (with_op ListTxOpCode.invalid)

unfoldable pub roll_forward_pop_remove_from_waitlist : ListId → Cmd (Unit {0})
unfolding optimized_pop_front remove_from_delayed_list add_to_ready_list commit get_task
roll_forward_pop_remove_from_waitlist wait_list = do
  task ← current
  done ← list_transaction_done task
  if done then pure tt else (do
    head ← head_of wait_list
    log_set (with_block_node_ptr head)
    log_set (with_op ListTxOpCode.wait_list_pop_removal)
    popped ← optimized_pop_front Kind.blocked_kind wait_list
    for_some popped (λ node. do
      item ← get (λ m. m.value node)
      woken ← get_task item
      remove_from_delayed_list woken
      add_to_ready_list woken)
    commit)

unfoldable pub roll_forward_remove_from_unsorted_waitlist : ListId → Ptr → Cmd (Unit {0})
unfolding optimized_remove remove_from_delayed_list add_to_ready_list invalidate get_task
roll_forward_remove_from_unsorted_waitlist wait_list node = do
  log_set (with_block_node_ptr (some node))
  log_set (with_op ListTxOpCode.wait_list_removal)
  optimized_remove Kind.blocked_kind wait_list node
  item ← get (λ m. m.value node)
  task ← get_task item
  remove_from_delayed_list task
  add_to_ready_list task
  invalidate

unfoldable pub roll_forward_insert_into_waitlist : ListId → TaskId → Cmd (Unit {0})
unfolding insert remove_from_ready_list add_to_delayed_list invalidate
roll_forward_insert_into_waitlist wait_list task = do
  log_set (with_wait_list_ptr (some wait_list))
  log_set (with_op ListTxOpCode.wait_list_insert)
  remove_from_ready_list task
  node ← get_event_node_ptr task
  insert Kind.blocked_kind wait_list node
  add_to_delayed_list task
  invalidate

unfoldable pub atomic_roll_forward_insert_into_waitlist : ListId → TaskId → ℕ → Cmd (Unit {0})
unfolding roll_forward_insert_into_waitlist set_wakeup_time
atomic_roll_forward_insert_into_waitlist wait_list task wakeup_time = do
  set_wakeup_time task wakeup_time
  roll_forward_insert_into_waitlist wait_list task

unfoldable pub roll_forward_insert_into_unsorted_waitlist : ListId → TaskId → Cmd (Unit {0})
unfolding optimized_insert_front remove_from_ready_list add_to_delayed_list invalidate
roll_forward_insert_into_unsorted_waitlist wait_list task = do
  log_set (with_wait_list_ptr (some wait_list))
  log_set (with_op ListTxOpCode.unsorted_wait_list_insert)
  remove_from_ready_list task
  node ← get_event_node_ptr task
  optimized_insert_front Kind.blocked_kind wait_list node
  add_to_delayed_list task
  invalidate

-- A task whose event node is in a wait list leaves it.
unfoldable pub leave_waitlist : TaskId → Cmd (Unit {0})
unfolding optimized_remove
leave_waitlist task = do
  node ← get_event_node_ptr task
  list ← list_of node
  for_some list (λ wait_list. optimized_remove Kind.blocked_kind wait_list node)

unfoldable pub roll_forward_remove_from_delaylist : Cmd (Unit {0})
unfolding optimized_pop_front leave_waitlist add_to_ready_list invalidate get_task
roll_forward_remove_from_delaylist = do
  log_set (with_op ListTxOpCode.delay_list_removal)
  popped ← optimized_pop_front Kind.sched_kind get_delay_list
  sched_node ← unwrap popped
  item ← get (λ m. m.value sched_node)
  task ← get_task item
  leave_waitlist task
  add_to_ready_list task
  invalidate

unfoldable pub roll_forward_insert_into_delaylist : Cmd (Unit {0})
unfolding remove_from_ready_list add_to_delayed_list commit
roll_forward_insert_into_delaylist = do
  task ← current
  done ← list_transaction_done task
  if done then pure tt else (do
    log_set (with_op ListTxOpCode.delay_list_insert)
    remove_from_ready_list task
    add_to_delayed_list task
    commit)

unfoldable pub roll_forward_insert_into_readylist : TaskId → Cmd (Unit {0})
unfolding add_to_ready_list invalidate
roll_forward_insert_into_readylist task = do
  log_set (with_task_ptr (some task))
  log_set (with_op ListTxOpCode.ready_list_insert)
  add_to_ready_list task
  invalidate

unfoldable pub atomic_roll_forward_remove_reinsert_into_activelist : Ptr → Cmd (Unit {0})
unfolding optimized_remove insert commit_activelist
atomic_roll_forward_remove_reinsert_into_activelist node = do
  timer_log_set (with_block_node_ptr (some node))
  timer_log_set (with_op ListTxOpCode.active_list_remove_re_insert)
  optimized_remove Kind.timer_kind get_timer_active_list node
  insert Kind.timer_kind get_timer_active_list node
  commit_activelist

unfoldable pub atomic_roll_forward_pop_reinsert_into_activelist : Cmd (Unit {0})
unfolding optimized_pop_front insert commit_activelist
atomic_roll_forward_pop_reinsert_into_activelist = do
  head ← head_of get_timer_active_list
  timer_log_set (with_block_node_ptr head)
  timer_log_set (with_op ListTxOpCode.active_list_pop_re_insert)
  popped ← optimized_pop_front Kind.timer_kind get_timer_active_list
  for_some popped (insert Kind.timer_kind get_timer_active_list)
  commit_activelist

unfoldable pub atomic_roll_forward_remove_from_activelist : Ptr → Cmd (Unit {0})
unfolding optimized_remove commit_activelist
atomic_roll_forward_remove_from_activelist node = do
  timer_log_set (with_block_node_ptr (some node))
  timer_log_set (with_op ListTxOpCode.active_list_remove)
  optimized_remove Kind.timer_kind get_timer_active_list node
  commit_activelist

abbrev pub is_blocked : TaskState → Bool
is_blocked TaskState.blocked = true
is_blocked _ = false

abbrev pub micro_op_set : ListOpCode → ℕ → Cmd (Unit {0})
micro_op_set op old_len = log_set (set_micro_op_old_len op old_len)

-- The part of the context switch behind its entry in the log.
unfoldable pub switch_on : TaskId → TaskId → ListId → Cmd (Unit {0})
unfolding next set_micro_op_old_len
switch_on task prev_task readylist = do
  set_status task TaskState.running
  status ← get (λ m. (m.tasks prev_task).status)
  (if is_blocked status then pure tt else set_status prev_task TaskState.ready)
  _ ← next readylist
  write (λ m. record m { current = task })
  micro_op_set ListOpCode.invalid 0

unfoldable pub atomic_roll_foward_context_switch : TaskId → TaskId → ListId → Cmd (Unit {0})
unfolding switch_on set_micro_op_old_len
atomic_roll_foward_context_switch task prev_task readylist = do
  log_set (with_task_ptr (some prev_task))
  micro_op_set ListOpCode.ready_list_next 0
  switch_on task prev_task readylist
