-- ===== src/ListTx/Unlogged.antt =====
-- The removal from the delay list, which does not log the node that it takes (src/list.rs,
-- `roll_forward_remove_from_delaylist`, `recover_and_roll_forward_of_delaylist_removal`).
use int_os.Base.{◌<◌, ◌≡◌, refl, ap, ◌∙◌, none, some, []}
use int_os.ListTx.{roll_forward_remove_from_delaylist, with_op}
use int_os.ListTx.Recovery.{recover_and_roll_forward_of_delaylist_removal, micro_op}
use int_os.Pm.Crash.{run_with_crashes, reboot, boot_after}
use int_os.PList.{optimized_pop_front, op_logged}
use int_os.OpLog.{Ptr, ListOpCode, get_micro_op, set_micro_op_old_len, ListTxOpCode, ListTxOpLog}
use int_os.Pm.State.{Mem, Kind}
use int_os.Sched.{get_delay_list}
use int_os.Pm.Run.{failing, crashed, stable, memory, panicked}
use int_os.OpLog.Word.{get_micro_op-set}

-- The power fails with the operation in the log, before its first write to the list.
removal_stops :
    (x : Ptr) (m : Mem)
    → m.head get_delay_list ≡ some x
    → (m' : Mem) × (roll_forward_remove_from_delaylist (failing 2) m ≡ crashed m')
      × (m'.log
          ≡ set_micro_op_old_len ListOpCode.pop_front
              (m.len get_delay_list)
              (with_op ListTxOpCode.delay_list_removal m.log))
unfolding roll_forward_remove_from_delaylist optimized_pop_front
removal_stops x m first = (
  op_logged Kind.sched_kind ListOpCode.pop_front (m.len get_delay_list)
      (record m { log = with_op ListTxOpCode.delay_list_removal m.log }),
  rw first refl,
  refl,
)

-- With any operation in the log, but no node, the recovery fails.
recovery_fails :
    (s : Mem) (op : ListOpCode)
    → get_micro_op s.log ≡ some op
    → s.log.block_node_ptr ≡ none
    → recover_and_roll_forward_of_delaylist_removal stable s ≡ panicked
unfolding recover_and_roll_forward_of_delaylist_removal micro_op
recovery_fails s op logged unset = rw (logged, unset)

-- A removal from a delay list of fewer than 4096 nodes, where no earlier transaction left a node in
-- the log, with a power failure before its first write to the list: the recovery reads the missing
-- node, which is undefined behaviour.
pub delaylist_removal-recovery :
    (x : Ptr) (m : Mem)
    → m.head get_delay_list ≡ some x
    → m.len get_delay_list < 4096
    → m.log.block_node_ptr ≡ none
    → run_with_crashes roll_forward_remove_from_delaylist
        recover_and_roll_forward_of_delaylist_removal 2 [] m
      ≡ none
unfolding run_with_crashes reboot set_micro_op_old_len
delaylist_removal-recovery x m first small unset =
    let (m', stops, logs) = removal_stops x m first in
    ap (boot_after (reboot recover_and_roll_forward_of_delaylist_removal [])) stops
    ∙ ap memory (
        recovery_fails m' ListOpCode.pop_front
          (ap get_micro_op logs
            ∙ get_micro_op-set ListOpCode.pop_front (m.len get_delay_list)
                (with_op ListTxOpCode.delay_list_removal m.log) small)
          (ap ListTxOpLog.block_node_ptr logs ∙ unset))
