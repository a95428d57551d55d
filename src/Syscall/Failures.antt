-- ===== src/Syscall/Failures.antt =====
-- A second failure, while system calls are replayed (src/syscalls.rs, `jit_recovery` of src/task.rs).
use int_os.Base.{
  if◌then◌else◌, ℕ, ◌<◌, ◌≡◌, refl, arith, Bool, true, false, Option, none, some, ltb,
}
use int_os.Journal.{Bytes}
use int_os.TxCache.{
  TxCache, try_retrieve_result, get_tx_id_of_tail, get_tx_id_of_ptr, commit_reset_tail, reset_ptr,
}
use int_os.TxCache.Fields.{Tail, tail_id}
use int_os.Syscall.{
  Syscalls, user_tx_start, recover_syscall, commit_syscall_tx_cache, reset_list_transaction,
}

-- What the first kernel transaction, with a result of `size` bytes, finds to replay in a system call
-- that runs again.
abbrev pub replayed : ℕ → Syscalls → Option (Bytes × TxCache)
replayed size k = try_retrieve_result size (reset_ptr k.syscall_tx_cache)

-- The state in which the user transaction starts again behind a failure.
abbrev pub again : Syscalls → Syscalls
again k = user_tx_start (recover_syscall k)

either_some :
    {A : Type 0} (b : Bool) (x y : A) → (r : A) × ((if b then some x else some y) ≡ some r)
either_some true x y = (x, refl)
either_some false x y = (y, refl)

finds :
    (size : ℕ) (c : TxCache)
    → ltb 0 (get_tx_id_of_tail c) ≡ true
    → (r : Bytes × TxCache) × (try_retrieve_result size (reset_ptr c) ≡ some r)
unfolding reset_ptr get_tx_id_of_ptr get_tx_id_of_tail try_retrieve_result
finds size c some_committed = rw some_committed (either_some (ltb 0 size) _ _)

-- A system call runs behind another one whose result is stored, and has committed kernel transactions,
-- when the power fails: with the recovery it finds the result of the first one and does not run it
-- again. When the power fails once more, at the start of the replay, that recovery takes the replay
-- for the end of a system call and drops the results: the committed transactions run twice.
pub second_failure-drops_results :
    (size id at : ℕ) (k : Syscalls)
    → k.syscall_replay_cache.ptr ≡ k.syscall_replay_cache.tail
    → 0 < k.syscall_replay_cache.tail
    → id < 65536
    → at < 32768
    → Tail k.syscall_tx_cache.tail id at
    → 0 < id
    → ((r : Bytes × TxCache) × (replayed size (again k) ≡ some r))
      × (replayed size (again (again k)) ≡ none)
unfolding user_tx_start recover_syscall commit_syscall_tx_cache commit_reset_tail
    reset_list_transaction reset_ptr get_tx_id_of_ptr get_tx_id_of_tail try_retrieve_result
second_failure-drops_results size id at k at_end stored few short e done =
    let spent : ltb k.syscall_replay_cache.ptr k.syscall_replay_cache.tail ≡ false =
      ground (arith, at_end) in
    let left : ltb 0 k.syscall_replay_cache.tail ≡ true = ground (arith, stored) in
    let first : ltb 0 (get_tx_id_of_tail k.syscall_tx_cache) ≡ true =
      ground (arith, tail_id few short k.syscall_tx_cache e, done) in
    (rw spent (finds size k.syscall_tx_cache first), rw (spent, left) refl)
