-- ===== src/Tests/Moves.antt =====
-- List transactions at a concrete memory (src/list.rs).
use int_os.Base.{if◌then◌else◌, ◌==◌, ◌≡◌, refl, none, [], arith, some, ◌∷◌, Option, has, true, ◌≤◌}
use int_os.Pm.Crash.{run_with_crashes, reboot}
use int_os.ListTx.{roll_forward_remove_from_delaylist, atomic_roll_foward_context_switch}
use int_os.ListTx.Recovery.{recover_and_roll_forward_of_delaylist_removal}
use int_os.Tests.Lists.{three_nodes, two_in_ring, idle_task}
use int_os.ListTx.Unlogged.{delaylist_removal-recovery}
use int_os.Sched.{get_task, get_sched_list}
use int_os.OpLog.{Ptr, get_micro_op, ListOpCode}
use int_os.Pm.State.{Mem, TaskState, Item, item_gt, priority_gt, Kind}
use int_os.Pm.Run.{pure, memory, stable}
use int_os.ListTx.Boot.{recover_and_roll_forward_context_switch}
use int_os.ListTx.Switched.{context_switch-crash_safe}
use int_os.PSorted.Waiters.{wait_list-lowest_first, priority_of, is_waiter, Waits, inserts, nobody}
use int_os.Dll.{IsList}
use int_os.Dll.Insert.{insert_by}
use int_os.PSorted.{
  insert, optimized_insert_sorted, recover_from_failed_insert_sorted, optimized_insert_sorted_impl,
  insert_from, sorted_op,
}
use int_os.PList.{optimized_pop_front, recover_from_failed_pop_front}

delaylist_removal-recovery_example :
    run_with_crashes roll_forward_remove_from_delaylist
      recover_and_roll_forward_of_delaylist_removal 2 [] three_nodes
    ≡ none
delaylist_removal-recovery_example =
    delaylist_removal-recovery 1 three_nodes refl (omega arith) refl

ring_task : (a : Ptr) → get_task (two_in_ring.value a) ≡ pure a
unfolding get_task
ring_task a = refl

context_switch-crash_safe_example :
    (let switch = atomic_roll_foward_context_switch 6 5 (get_sched_list 7) in
      (m' : Mem) × (memory (switch stable two_in_ring) ≡ some m')
      × (run_with_crashes switch recover_and_roll_forward_context_switch 5 (1 ∷ 2 ∷ []) two_in_ring
          ≡ some m')
      × (m'.current ≡ 6)
      × ((m'.tasks 6).status ≡ TaskState.running)
      × ((m'.tasks 5).status ≡ TaskState.ready)
      × (m'.cursor (get_sched_list 7) ≡ some 6)
      × (get_micro_op m'.log ≡ some ListOpCode.invalid))
context_switch-crash_safe_example =
    context_switch-crash_safe 7 5 6 5 6 two_in_ring refl refl refl (ring_task 5) (ring_task 6) refl
      refl 3 (1 ∷ 2 ∷ [])

-- The tasks 1 and 2, with the priority values 5 and 3, and an empty wait list.
abbrev nobody_waits : Mem
nobody_waits = record three_nodes {
  value = λ a. Item.blocked a 0;
  tasks = λ t. record idle_task { priority = if t == 1 then 5 else 3 };
  next = λ a. none;
  prev = λ a. none;
  list = λ a. none;
  head = λ l. none;
  len = λ l. 0;
}

nobody_waits-IsList : IsList nobody_waits 0 []
nobody_waits-IsList = record { chain = refl; count = refl; cursor = refl; owned = λ a. refl }

-- The memory of a run, or this one.
abbrev memory_of : Option Mem → Mem
memory_of none = nobody_waits
memory_of (some m) = m

-- Task 2 comes first, and then task 1; the power fails behind four writes of the first insertion.
abbrev waits_2 : Option Mem
waits_2 =
    run_with_crashes (insert Kind.blocked_kind 0 2) (recover_from_failed_insert_sorted 0 2 0) 4 []
      nobody_waits

abbrev waits_1 : Option Mem
waits_1 =
    run_with_crashes (insert Kind.blocked_kind 0 1) (recover_from_failed_insert_sorted 0 1 1) 40 []
      (memory_of waits_2)

abbrev two_wait : Mem
two_wait = memory_of waits_1

two_wait-Waits : Waits Kind.blocked_kind 0 two_wait (1 ∷ 2 ∷ [])
unfolding insert_by item_gt priority_gt is_waiter run_with_crashes reboot insert
    optimized_insert_sorted optimized_insert_sorted_impl insert_from sorted_op
    recover_from_failed_insert_sorted
two_wait-Waits =
    inserts 1 39 [] (inserts 2 3 [] (nobody nobody_waits-IsList) refl refl (omega arith) refl) refl
      refl (omega arith) refl

wait_list-lowest_first_example :
    ((y : Ptr)
      → has y (2 ∷ []) ≡ true
      → priority_of two_wait.tasks (two_wait.value y)
        ≤ priority_of two_wait.tasks (two_wait.value 1))
    × (m' : Mem) × (run_with_crashes
          (optimized_pop_front Kind.blocked_kind 0)
          (recover_from_failed_pop_front Kind.blocked_kind 0 1 (two_wait.len 0))
          3
          (1 ∷ [])
          two_wait
        ≡ some m')
    × IsList m' 0 (2 ∷ [])
    × (m'.list 1 ≡ none)
wait_list-lowest_first_example = wait_list-lowest_first 2 (1 ∷ []) two_wait-Waits
