-- ===== src/ListTx/Boot.antt =====
-- The recoveries of the timer list and of the context switch, src/list.rs, and the choice of the
-- recovery at boot, src/recover.rs.
use int_os.OpLog.{ListOpCode, ListTxOpCode}
use int_os.Base.{◌==◌, if◌then◌else◌, link_eq, Bool, true, false, not, Option, none, ℕ}
use int_os.Pm.Run.{◌>>=◌, ◌>>◌, Cmd, get, unwrap, pure, panic, when, write}
use int_os.ListTx.Recovery.{
  micro_op, recover_and_roll_forward_of_waitlist_pop_remove, finish_ready_removal, finish_pop,
  recover_and_roll_forward_of_waitlist_insert, recover_and_roll_forward_of_unsorted_waitlist_remove,
  active_log, recover_and_roll_forward_of_delaylist_removal, old_len_of, list_log,
  recover_and_roll_forward_of_delaylist_insert, finish_delay_insert,
  recover_and_roll_forward_of_readylist_insert,
}
use int_os.Sched.{
  get_task, add_to_delayed_list, current, get_event_node_ptr, get_timer_active_list, get_priority,
  get_sched_list, set_status,
}
use int_os.OpLog.{Ptr, TaskId, set_micro_op_old_len}
use int_os.PList.{recover_from_failed_remove, recover_from_failed_insert_front, list_of}
use int_os.PRing.{cursor_item, next}
use int_os.Pm.State.{Item, Kind, TaskState}
use int_os.PSorted.{insert, recover_from_failed_insert_sorted}
use int_os.ListTx.{commit_activelist, invalidate, micro_op_set}

unfoldable pub recover_and_roll_forward_of_unsorted_waitlist_insert : Cmd (Unit {0})
unfolding micro_op finish_ready_removal insert add_to_delayed_list recover_from_failed_insert_front
    finish_delay_insert invalidate
recover_and_roll_forward_of_unsorted_waitlist_insert = do
  opcode ← micro_op list_log
  old_len ← old_len_of list_log
  ptr ← get (λ m. m.log.wait_list_ptr)
  wl ← unwrap ptr
  task ← current
  node ← get_event_node_ptr task
  elim opcode [
    | ListOpCode.remove ↦ (do
      finish_ready_removal task old_len
      insert Kind.blocked_kind wl node
      add_to_delayed_list task)
    | ListOpCode.insert_front ↦ (do
      recover_from_failed_insert_front wl node old_len
      add_to_delayed_list task)
    | ListOpCode.insert_sorted_delay_list ↦ finish_delay_insert task old_len
    | ListOpCode.invalid ↦ pure tt
    | _ ↦ panic
  ]
  invalidate

-- The node that the timer log names.
abbrev pub active_node : Cmd Ptr
active_node = do ptr ← get (λ m. m.timer_log.block_node_ptr); unwrap ptr

-- The result is `true` for `Ok`, `false` for `Err`.
unfoldable pub recover_and_roll_forward_of_activelist_remove_reinsert : Cmd Bool
unfolding micro_op recover_from_failed_remove insert recover_from_failed_insert_sorted
    commit_activelist
recover_and_roll_forward_of_activelist_remove_reinsert = do
  opcode ← micro_op active_log
  old_len ← old_len_of active_log
  node ← active_node
  elim opcode [
    | ListOpCode.remove ↦ (do
      list ← list_of node
      when (not (link_eq list none)) (recover_from_failed_remove get_timer_active_list node old_len)
      insert Kind.timer_kind get_timer_active_list node
      commit_activelist
      pure true)
    | ListOpCode.insert_sorted_delay_list ↦ (do
      recover_from_failed_insert_sorted get_timer_active_list node old_len
      commit_activelist
      pure true)
    | ListOpCode.invalid ↦ pure false
    | _ ↦ panic
  ]

unfoldable pub recover_and_roll_forward_of_activelist_pop_reinsert : Cmd Bool
unfolding micro_op finish_pop insert recover_from_failed_insert_sorted commit_activelist
recover_and_roll_forward_of_activelist_pop_reinsert = do
  opcode ← micro_op active_log
  old_len ← old_len_of active_log
  node ← active_node
  elim opcode [
    | ListOpCode.pop_front ↦ (do
      finish_pop Kind.timer_kind node old_len
      insert Kind.timer_kind get_timer_active_list node
      commit_activelist
      pure true)
    | ListOpCode.insert_sorted_delay_list ↦ (do
      recover_from_failed_insert_sorted get_timer_active_list node old_len
      commit_activelist
      pure true)
    | ListOpCode.invalid ↦ pure false
    | _ ↦ panic
  ]

unfoldable pub recover_and_roll_forward_of_activelist_remove : Cmd Bool
unfolding micro_op recover_from_failed_remove commit_activelist
recover_and_roll_forward_of_activelist_remove = do
  opcode ← micro_op active_log
  old_len ← old_len_of active_log
  node ← active_node
  elim opcode [
    | ListOpCode.remove ↦ (do
      recover_from_failed_remove get_timer_active_list node old_len
      commit_activelist
      pure true)
    | ListOpCode.invalid ↦ pure false
    | _ ↦ panic
  ]

-- The task of the item that the cursor of a ready list shows.
unfoldable pub item_task : Option Item → Cmd TaskId
unfolding get_task
item_task item = do i ← unwrap item; get_task i

-- The switch from `prev_task` is finished, where the cursor shows the task `at_cursor`.
unfoldable pub finish_switch : ℕ → TaskId → TaskId → Cmd (Unit {0})
unfolding next item_task set_micro_op_old_len
finish_switch prio prev_task at_cursor = do
  (if at_cursor == prev_task
      then (do
        set_status prev_task TaskState.ready
        item ← next (get_sched_list prio)
        task ← item_task item
        set_status task TaskState.running
        write (λ m. record m { current = task }))
      else (do
        set_status at_cursor TaskState.running
        write (λ m. record m { current = at_cursor })))
  micro_op_set ListOpCode.invalid 0

unfoldable pub recover_and_roll_forward_context_switch : Cmd (Unit {0})
unfolding micro_op cursor_item item_task finish_switch
recover_and_roll_forward_context_switch = do
  opcode ← micro_op list_log
  elim opcode [
    | ListOpCode.ready_list_next ↦ (do
      ptr ← get (λ m. m.log.task_ptr)
      prev_task ← unwrap ptr
      prio ← get_priority prev_task
      cursor ← cursor_item (get_sched_list prio)
      at_cursor ← item_task cursor
      finish_switch prio prev_task at_cursor)
    | ListOpCode.invalid ↦ pure tt
    | _ ↦ panic
  ]

unfoldable pub recover_list_transaction : Cmd (Unit {0})
unfolding recover_and_roll_forward_of_waitlist_pop_remove
    recover_and_roll_forward_of_waitlist_insert recover_and_roll_forward_of_unsorted_waitlist_remove
    recover_and_roll_forward_of_unsorted_waitlist_insert
    recover_and_roll_forward_of_delaylist_removal recover_and_roll_forward_of_delaylist_insert
    recover_and_roll_forward_of_readylist_insert recover_and_roll_forward_context_switch
recover_list_transaction = do
  list_op ← get (λ m. m.log.op)
  elim list_op [
    | ListTxOpCode.invalid ↦ pure tt
    | ListTxOpCode.wait_list_pop_removal ↦ recover_and_roll_forward_of_waitlist_pop_remove
    | ListTxOpCode.wait_list_insert ↦ recover_and_roll_forward_of_waitlist_insert
    | ListTxOpCode.wait_list_removal ↦ recover_and_roll_forward_of_unsorted_waitlist_remove
    | ListTxOpCode.unsorted_wait_list_insert ↦ recover_and_roll_forward_of_unsorted_waitlist_insert
    | ListTxOpCode.delay_list_removal ↦ recover_and_roll_forward_of_delaylist_removal
    | ListTxOpCode.delay_list_insert ↦ recover_and_roll_forward_of_delaylist_insert
    | ListTxOpCode.ready_list_insert ↦ recover_and_roll_forward_of_readylist_insert
    | _ ↦ panic
  ]
  recover_and_roll_forward_context_switch
