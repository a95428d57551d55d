-- ===== src/Tests/Creations.antt =====
-- The first boot with two tasks (src/task.rs, src/recover.rs).
use int_os.Base.{◌≡◌, refl, inl, inr, false, some, none, [], ◌∷◌}
use int_os.Heap as Heap
use int_os.Heap.{init, create_per_task_pm_heap, global_alloc}
use int_os.Creation.{
  TaskParams, Kernel, committed, create_tx, create_task_static, finish, insert_into_readylist,
  idempotent_boot, boot,
}
use int_os.Creation.Torn.{noise}
use int_os.Creation.Stops.{in_tx, creates, replays, behind_tx, Fails, first, again}
use int_os.Creation.Boots.{idempotent_boot-Fails}

abbrev idle : TaskParams
idle = record { prio = 7; pmem_heap_sz = 0 }

abbrev ping : TaskParams
ping = record { prio = 1; pmem_heap_sz = 64 }

abbrev fresh : Kernel
fresh = record {
  task_cnt = 0;
  cur_max_priority = 8;
  current = none;
  task_lists = λ p. [];
  in_list = λ t. false;
  priority = λ t. 0;
  pm_heap = λ t. Heap.new;
  global_heap = record { end = 4096; next = 1024 };
  results = [];
}

-- The first task is created. The power fails in the transaction of the second one, which is the
-- current task then, but not yet the one of the highest priority.
abbrev one_made : Kernel
one_made = create_task_static 4 idle fresh

abbrev failed : Kernel
failed = noise 1 false Heap.new (some 1) 7 one_made

-- The next boot fails between the transaction and the insertion.
abbrev failed_again : Kernel
failed_again = (create_tx 4 ping failed).1

fails : Fails 4 (idle ∷ ping ∷ []) fresh failed_again
unfolding create_task_static create_tx committed finish insert_into_readylist
fails =
    again
      (again first (
        creates (
          in_tx {k = one_made} {k' = failed} (refl, refl)
            (1, false, Heap.new, some 1, 7, inr (refl, refl, inl refl), refl))))
      (replays behind_tx)

idempotent_boot-Fails_example :
    idempotent_boot 4 (idle ∷ ping ∷ []) failed_again ≡ idempotent_boot 4 (idle ∷ ping ∷ []) fresh
idempotent_boot-Fails_example = idempotent_boot-Fails refl fails

-- Both boots run.
ping_current : (idempotent_boot 4 (idle ∷ ping ∷ []) failed_again).current ≡ some 1
unfolding idempotent_boot boot create_task_static create_tx committed finish insert_into_readylist
ping_current = refl

ping_ready : (idempotent_boot 4 (idle ∷ ping ∷ []) failed_again).task_lists 1 ≡ 1 ∷ []
unfolding idempotent_boot boot create_task_static create_tx committed finish insert_into_readylist
ping_ready = refl
