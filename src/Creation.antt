-- ===== src/Creation.antt =====
-- The creation of the tasks in the first boot: `create_task_static` of src/task.rs with `opt_list`, and
-- `idempotent_boot` of src/recover.rs. The transaction of a creation returns its cached result when
-- the boot starts again (TxCache, Transaction). The insertion into the ready list is one step here: PRing
-- and ListTx follow failures in it. The number of tasks that fit is the constant
-- `TASK_NUM_LIMIT` of the board. The stack and the entry point of a task are for the processor.
pub mod Torn
pub mod Replays
pub mod Stops
pub mod Boots
use int_os.Base.{
  ℕ, ◌+◌, Bool, true, false, Option, none, some, List, [], ◌∷◌, ◌++◌, ltb, leb, ◌==◌, if◌then◌else◌,
  update,
}
use int_os.OpLog.{TaskId}
use int_os.Heap.{BumpAllocator, GlobalPmHeap, create_per_task_pm_heap}
use int_os.Heap as Heap
use int_os.Schedule.{num_priority_levels}

abbrev pub min_priority : ℕ
min_priority = num_priority_levels

-- What the caller gives.
pub record TaskParams : Type 0 where
  pub prio : ℕ
  pub pmem_heap_sz : ℕ

pub data Created : Type 0 where
  handle : (tid : TaskId) → Created
  no_space invalid_param : Created

pub record Kernel : Type 0 where
  pub task_cnt : ℕ
  pub cur_max_priority : ℕ
  pub current : Option TaskId
  pub task_lists : ℕ → List TaskId
  -- whether the sched node of the task is in a list
  pub in_list : TaskId → Bool
  pub priority : TaskId → ℕ
  pub pm_heap : TaskId → BumpAllocator
  pub global_heap : GlobalPmHeap
  -- the cached results of the boot transactions
  pub results : List Created

-- The heap of a new task, and what is left of the global one; a heap that is refused is the empty one.
unfoldable pub new_heap : ℕ → GlobalPmHeap → BumpAllocator × GlobalPmHeap
unfolding create_per_task_pm_heap Heap.new
new_heap size g = elim (create_per_task_pm_heap size g) [ none ↦ (Heap.new, g) | some r ↦ r ]

-- The committed transaction for a task that is created; the scheduler is not started.
unfoldable pub committed : TaskParams → Kernel → Kernel
unfolding new_heap
committed p k =
    let tid = k.task_cnt in
    let higher = ltb p.prio k.cur_max_priority in
    let heap = new_heap p.pmem_heap_sz k.global_heap in
    record k {
      task_cnt = tid + 1;
      cur_max_priority = if higher then p.prio else k.cur_max_priority;
      current = if higher then some tid else k.current;
      in_list = update k.in_list tid false;
      priority = update k.priority tid p.prio;
      pm_heap = update k.pm_heap tid heap.0;
      global_heap = heap.1;
      results = k.results ++ (handle tid ∷ []);
    }

unfoldable pub create_tx : ℕ → TaskParams → Kernel → Created × Kernel
unfolding committed
create_tx limit p k =
    if leb limit k.task_cnt
    then (no_space, record k { results = k.results ++ (no_space ∷ []) })
    else if leb min_priority p.prio
    then (invalid_param, record k { results = k.results ++ (invalid_param ∷ []) })
    else (handle k.task_cnt, committed p k)

-- `atomic_roll_forward_insert_into_readylist`: a node that is in a list stays there.
unfoldable pub insert_into_readylist : TaskId → Kernel → Kernel
insert_into_readylist t k =
    let p = k.priority t in
    if k.in_list t then k else record k {
      task_lists = update k.task_lists p (k.task_lists p ++ (t ∷ []));
      in_list = update k.in_list t true;
    }

-- What follows the transaction.
unfoldable pub finish : Created → Kernel → Kernel
unfolding insert_into_readylist
finish (handle t) k = insert_into_readylist t k
finish no_space k = k
finish invalid_param k = k

-- `create_task_static`, without a cached result.
unfoldable pub create_task_static : ℕ → TaskParams → Kernel → Kernel
unfolding create_tx finish
create_task_static limit p k = let (r, k') = create_tx limit p k in finish r k'

-- The boot creates the tasks `ps`, where `rs` are the cached results that it has still to replay.
unfoldable pub boot : ℕ → List TaskParams → List Created → Kernel → Kernel
unfolding create_task_static finish
boot limit [] rs k = k
boot limit (p ∷ ps) [] k = boot limit ps [] (create_task_static limit p k)
boot limit (p ∷ ps) (r ∷ rs) k = boot limit ps rs (finish r k)

-- `idempotent_boot`: the replay starts at the first result.
unfoldable pub idempotent_boot : ℕ → List TaskParams → Kernel → Kernel
unfolding boot
idempotent_boot limit ps k = boot limit ps k.results k
