-- ===== src/Tests/Lists.antt =====
-- A delay list with three nodes, and the operations of src/list.rs on it.
use int_os.Base.{
  ltb, ◌==◌, if◌then◌else◌, ◌*◌, ◌≡◌, refl, false, ◌&&◌, none, some, List, [], ◌∷◌, arith,
}
use int_os.Pm.State.{Task, Mem, TaskState, Item, item_gt, Kind}
use int_os.OpLog.{Ptr, new, get_micro_op, set_micro_op_old_len, ListOpCode, get_old_len}
use int_os.Dll.{IsList}
use int_os.Pm.Run.{memory, stable}
use int_os.Dll.Insert.{insert_by}
use int_os.Dll.Ordered.{Ordered}
use int_os.PList.{
  optimized_remove, optimized_pop_front, optimized_insert_front, recover_from_failed_remove,
  recover_from_failed_pop_front, recover_from_failed_insert_front, len_more, optimized_remove_impl,
}
use int_os.PRing.{optimized_insert_before_cursor, recover_from_failed_insert_before_cursor}
use int_os.PSorted.Insert.{node_gt, insert-crash_safe}
use int_os.PSorted.{insert, recover_from_failed_insert_sorted}
use int_os.Pm.Crash.{run_with_crashes}
use int_os.OpLog.Word.{set_micro_op_old_len-roundtrip}
use int_os.Dll.Erase.{erase}
use int_os.PList.PopFront.{pop_front-crash_safe}
use int_os.PList.InsertFront.{insert_front-crash_safe}
use int_os.PList.Remove.{remove-crash_safe}
use int_os.PRing.Crashed.{remove_alone-recovery, insert_before_cursor-recovery}

abbrev pub idle_task : Task
idle_task = record {
  priority = 7;
  status = TaskState.ready;
  sched_node = 0;
  event_node = 0;
  list_tx_done = false;
  recovery_mode = false;
}

-- The list 0 holds the nodes 1, 2 and 3, and the node 4 is in no list.
abbrev pub three_nodes : Mem
three_nodes = record {
  next = λ a. if a == 1 then some 2 else if a == 2 then some 3 else none;
  prev = λ a. if a == 3 then some 2 else if a == 2 then some 1 else none;
  list = λ a. if ltb 0 a && ltb a 4 then some 0 else none;
  value = λ a. Item.sched a (if a == 4 then 15 else a * 10);
  len = λ _. 3;
  cursor = λ _. none;
  head = λ _. some 1;
  log = new;
  timer_log = new;
  tasks = λ _. idle_task;
  current = 0;
  next_unblock_time = 100;
}

abbrev nodes : List Ptr
nodes = 1 ∷ 2 ∷ 3 ∷ []

three_nodes-IsList : IsList three_nodes 0 nodes
three_nodes-IsList = record {
  chain = (refl, refl, refl, (refl, refl, refl, (refl, refl, refl, refl)));
  count = refl;
  cursor = refl;
  owned = λ a. ground arith;
}

three_nodes-Ordered : Ordered (node_gt three_nodes) nodes
unfolding item_gt
three_nodes-Ordered = (refl, (refl, tt))

remove-crash_safe_example :
    (m' : Mem) × (memory (optimized_remove Kind.sched_kind 0 2 stable three_nodes) ≡ some m')
    × (run_with_crashes
          (optimized_remove Kind.sched_kind 0 2)
          (recover_from_failed_remove 0 2 3)
          3
          (2 ∷ [])
          three_nodes
        ≡ some m')
    × IsList m' 0 (erase nodes 2)
    × (m'.list 2 ≡ none)
remove-crash_safe_example =
    remove-crash_safe Kind.sched_kind 0 2 three_nodes-IsList refl (omega arith) 2 (2 ∷ [])

pop_front-crash_safe_example :
    (m' : Mem) × (memory (optimized_pop_front Kind.sched_kind 0 stable three_nodes) ≡ some m')
    × (run_with_crashes
          (optimized_pop_front Kind.sched_kind 0)
          (recover_from_failed_pop_front Kind.sched_kind 0 1 3)
          2
          (1 ∷ 1 ∷ [])
          three_nodes
        ≡ some m')
    × IsList m' 0 (2 ∷ 3 ∷ [])
    × (m'.list 1 ≡ none)
    × (m'.value ≡ three_nodes.value)
    × (m'.tasks ≡ three_nodes.tasks)
pop_front-crash_safe_example =
    pop_front-crash_safe Kind.sched_kind 0 three_nodes-IsList (omega arith) 1 (1 ∷ 1 ∷ [])

insert_front-crash_safe_example :
    (m' : Mem) × (memory (optimized_insert_front Kind.sched_kind 0 4 stable three_nodes) ≡ some m')
    × (run_with_crashes
          (optimized_insert_front Kind.sched_kind 0 4)
          (recover_from_failed_insert_front 0 4 3)
          5
          (2 ∷ [])
          three_nodes
        ≡ some m')
    × IsList m' 0 (4 ∷ nodes)
insert_front-crash_safe_example =
    insert_front-crash_safe Kind.sched_kind 0 4 three_nodes-IsList refl (omega arith) 4 (2 ∷ [])

insert-crash_safe_example :
    (let ys = insert_by (node_gt three_nodes 4) 4 nodes in
      (m' : Mem) × (memory (insert Kind.sched_kind 0 4 stable three_nodes) ≡ some m')
      × (run_with_crashes
            (insert Kind.sched_kind 0 4)
            (recover_from_failed_insert_sorted 0 4 3)
            6
            (3 ∷ 1 ∷ [])
            three_nodes
          ≡ some m')
      × IsList m' 0 ys
      × Ordered (node_gt m') ys
      × (m'.value ≡ three_nodes.value)
      × (m'.tasks ≡ three_nodes.tasks))
insert-crash_safe_example =
    insert-crash_safe Kind.sched_kind 0 4 three_nodes-IsList refl (omega arith) three_nodes-Ordered
      5 (3 ∷ 1 ∷ [])

logged_pop_front :
    (get_micro_op (set_micro_op_old_len ListOpCode.pop_front 3 new) ≡ some ListOpCode.pop_front)
    × (get_old_len (set_micro_op_old_len ListOpCode.pop_front 3 new) ≡ 3)
logged_pop_front = set_micro_op_old_len-roundtrip ListOpCode.pop_front 3 new (omega arith)

-- The new node goes between 1 and 2.
insert_place : insert_by (node_gt three_nodes 4) 4 nodes ≡ 1 ∷ 4 ∷ 2 ∷ 3 ∷ []
unfolding insert_by item_gt
insert_place = refl

-- A circular list with the node 5, and one with 5 and 6.
abbrev one_in_ring : Mem
one_in_ring = record three_nodes {
  next = λ _. some 5;
  prev = λ _. some 5;
  list = λ _. some 9;
  len = λ _. 1;
  cursor = λ _. some 5;
  head = λ _. some 5;
}

abbrev pub two_in_ring : Mem
two_in_ring = record three_nodes {
  next = λ a. if a == 5 then some 6 else some 5;
  prev = λ a. if a == 5 then some 6 else some 5;
  list = λ a. if a == 7 then none else some 9;
  len = λ _. 2;
  cursor = λ _. some 5;
  head = λ _. some 5;
}

remove_alone-recovery_example :
    ((m' : Mem) × (memory (optimized_remove Kind.sched_kind 9 5 stable one_in_ring) ≡ some m')
      × (m'.head 9 ≡ none)
      × (m'.cursor 9 ≡ none))
    × ((m' : Mem) × (run_with_crashes
            (optimized_remove Kind.sched_kind 9 5)
            (recover_from_failed_remove 9 5 1)
            1
            []
            one_in_ring
          ≡ some m')
        × (m'.head 9 ≡ some 5)
        × (m'.cursor 9 ≡ some 5)
        × (m'.len 9 ≡ 0)
        × (m'.list 5 ≡ none))
remove_alone-recovery_example =
    remove_alone-recovery Kind.sched_kind 9 5 one_in_ring
      (record { next = refl; prev = refl; list = refl; len = refl; cursor = refl; head = refl })

insert_before_cursor-recovery_example :
    (m' : Mem) × (run_with_crashes
        (optimized_insert_before_cursor Kind.sched_kind 9 7)
        (recover_from_failed_insert_before_cursor 9 7 2)
        1
        []
        two_in_ring
      ≡ some m')
    × (m'.next 6 ≡ some 7)
    × (m'.len 9 ≡ len_more 2)
    × (m'.list 7 ≡ none)
    × (memory (optimized_remove_impl 9 7 stable m') ≡ some m')
insert_before_cursor-recovery_example =
    insert_before_cursor-recovery Kind.sched_kind 9 7 5 6 1 two_in_ring refl refl refl refl refl
