-- ===== src/Tests/Syscalls.antt =====
-- A user transaction with two system calls (src/syscalls.rs).
use int_os.Base.{◌++◌, ◌+◌, ◌≡◌, ◌⊎◌, refl, inr, arith, true, none, some, List, [], ◌∷◌}
use int_os.Journal.{Bytes}
use int_os.Heap.{align_up}
use int_os.TxCache.{TxCache, tx_committed}
use int_os.TxCache.Fields.{composite}
use int_os.Syscall.{
  set_tail, Syscalls, Write, perform, stop_after, syscall_end, add_entry_start, add_entry_commit,
  copy_writes, user_tx_start, recover_syscall, commit_syscall_tx_cache, reset_list_transaction,
}
use int_os.Syscall.End.{with_cache, Kept, syscall_end-crash_safe}
use int_os.Syscall.Failures.{replayed, again, second_failure-drops_results}
use int_os.Syscall.Results.{Calls, done, call, Replays, Calls-Replays}

abbrev zeros : Bytes
zeros a = 0

abbrev numbers : Bytes
numbers a = a + 7

abbrev others : Bytes
others a = a + 50

-- A call runs behind one with a stored result of five bytes, and has committed a transaction.
abbrev in_progress : Syscalls
in_progress = record {
  syscall_replay_cache = record { ptr = 8; tail = 8; cache = numbers };
  syscall_tx_cache = record {
    cache = zeros;
    ptr = composite 1 4;
    tail = composite 1 4 + tx_committed;
  };
  list_tx_done = true;
}

-- The writes of its end, with a result of two bytes.
abbrev at_end : List Write
at_end =
    copy_writes 4 0 others 8
    ++ (set_tail 12 ∷ commit_syscall_tx_cache ∷ reset_list_transaction ∷ add_entry_commit ∷ [])

ends : syscall_end 2 others in_progress ≡ some at_end
unfolding syscall_end add_entry_start align_up copy_writes
ends = refl

syscall_end-crash_safe_example :
    ((b : Bytes) × (user_tx_start (recover_syscall (stop_after 6 at_end in_progress))
        ≡ user_tx_start (with_cache b in_progress))
      × Kept 8 b numbers)
    ⊎ (user_tx_start (recover_syscall (stop_after 6 at_end in_progress))
        ≡ user_tx_start (perform at_end in_progress))
syscall_end-crash_safe_example =
    syscall_end-crash_safe 2 others 6 in_progress at_end refl (omega arith) (omega arith) ends

second_failure-drops_results_example :
    ((r : Bytes × TxCache) × (replayed 4 (again in_progress) ≡ some r))
    × (replayed 4 (again (again in_progress)) ≡ none)
second_failure-drops_results_example =
    second_failure-drops_results 4 1 4 in_progress refl (omega arith) (omega arith) (omega arith)
      (inr refl) (omega arith)

-- The first and the second call of a transaction.
abbrev fresh : Syscalls
fresh = record in_progress { syscall_replay_cache = record { ptr = 0; tail = 0; cache = zeros } }

abbrev first_end : List Write
first_end =
    copy_writes 8 0 numbers 0
    ++ (set_tail 8 ∷ commit_syscall_tx_cache ∷ reset_list_transaction ∷ add_entry_commit ∷ [])

first_ends : syscall_end 5 numbers fresh ≡ some first_end
unfolding syscall_end add_entry_start align_up copy_writes
first_ends = refl

abbrev between : Syscalls
between = perform first_end fresh

second_ends : syscall_end 2 others between ≡ some at_end
unfolding syscall_end add_entry_start align_up copy_writes perform add_entry_commit
    commit_syscall_tx_cache reset_list_transaction
second_ends = refl

both : Calls ((5, numbers) ∷ (2, others) ∷ []) fresh (perform at_end between)
both =
    call 5 numbers fresh first_end (omega arith) (omega arith) refl first_ends
      (call 2 others between at_end (omega arith) (omega arith) refl second_ends done)

Calls-Replays_example :
    Replays ((5, numbers) ∷ (2, others) ∷ []) (user_tx_start (perform at_end between))
Calls-Replays_example = Calls-Replays refl both
