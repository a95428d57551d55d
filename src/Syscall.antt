-- ===== src/Syscall.antt =====
-- The replay of system calls, src/syscalls.rs (`SyscallReplayCache`, `syscall_begin` and
-- `syscall_end`), and the part of `jit_recovery` of src/task.rs for a failure at the end of one. The
-- cache has the results of the system calls of a user transaction, one behind the other; `ptr` says
-- how far they have been replayed. A result has at least one byte. What `syscall_end` does to
-- persistent memory is a list of writes: the power may fail between any two.
pub mod End
pub mod Failures
pub mod Results
use int_os.Base.{
  ℕ, zero, suc, ◌+◌, Bool, true, false, Option, none, some, List, [], ◌∷◌, ◌++◌, ltb, leb, ◌&&◌,
  if◌then◌else◌, update,
}
use int_os.Journal.{Bytes}
use int_os.Heap.{align_up}
use int_os.TxCache as Cached
use int_os.TxCache.{TxCache}

-- `ARCH_ALIGN` and `SYSCALL_REPLAY_CACHE_SZ` on a machine of 32 bits
abbrev pub arch_align : ℕ
arch_align = 4

abbrev pub syscall_replay_cache_sz : ℕ
syscall_replay_cache_sz = 64

pub record SyscallReplayCache : Type 0 where
  pub ptr : ℕ
  pub tail : ℕ
  pub cache : Bytes

-- What a task keeps of its system calls: the results, the cached results of the kernel transactions
-- of the one in progress, and whether its list transaction is done.
pub record Syscalls : Type 0 where
  pub syscall_replay_cache : SyscallReplayCache
  pub syscall_tx_cache : TxCache
  pub list_tx_done : Bool

abbrev pub Write : Type 0
Write = Syscalls → Syscalls

unfoldable pub perform : List Write → Syscalls → Syscalls
perform [] k = k
perform (w ∷ ws) k = perform ws (w k)

-- The power fails behind the given number of writes, if there are more.
unfoldable pub stop_after : ℕ → List Write → Syscalls → Syscalls
stop_after zero ws k = k
stop_after (suc n) [] k = k
stop_after (suc n) (w ∷ ws) k = stop_after n ws (w k)

abbrev pub set_replay : SyscallReplayCache → Write
set_replay c k = record k { syscall_replay_cache = c }

abbrev pub put_byte : ℕ → ℕ → Write
put_byte a v k =
    let c = k.syscall_replay_cache in set_replay (record c { cache = update c.cache a v }) k

abbrev pub set_tail : ℕ → Write
set_tail t k = set_replay (record k.syscall_replay_cache { tail = t }) k

-- `copy_nonoverlapping` to position `at`: `n` more bytes, from byte `i` on.
unfoldable pub copy_writes : ℕ → ℕ → Bytes → ℕ → List Write
copy_writes zero i entry at = []
copy_writes (suc n) i entry at = put_byte (at + i) (entry i) ∷ copy_writes n (suc i) entry at

-- `add_entry_start` of a type of `size` bytes; `none` where the assertion, or the index, fails. It
-- copies also the bytes behind the value that fill it up to a multiple of the alignment.
unfoldable pub add_entry_start : ℕ → Bytes → SyscallReplayCache → Option (List Write)
unfolding align_up copy_writes
add_entry_start size entry c =
    let aligned_sz = align_up size arch_align in
    if leb (c.tail + aligned_sz) syscall_replay_cache_sz && ltb c.tail syscall_replay_cache_sz
    then some (copy_writes aligned_sz 0 entry c.tail ++ (set_tail (c.tail + aligned_sz) ∷ []))
    else none

unfoldable pub add_empty_entry_start : SyscallReplayCache → SyscallReplayCache
add_empty_entry_start c = record c { tail = c.tail + arch_align }

unfoldable pub add_entry_commit : Write
add_entry_commit k = let c = k.syscall_replay_cache in set_replay (record c { ptr = c.tail }) k

-- `get_entry` of a type of `size` bytes: the bytes from there on. `&self.cache[self.ptr]` panics
-- behind the cache; it is not reached there, and gives other bytes.
unfoldable pub get_entry : ℕ → SyscallReplayCache → Option (Bytes × SyscallReplayCache)
unfolding align_up
get_entry size c =
    if ltb c.ptr c.tail
    then some (λ i. c.cache (c.ptr + i), record c { ptr = c.ptr + align_up size arch_align })
    else none

unfoldable pub get_empty_entry : SyscallReplayCache → Option SyscallReplayCache
get_empty_entry c = if ltb c.ptr c.tail then some (record c { ptr = c.ptr + arch_align }) else none

-- `user_tx_start`, in front of a user transaction: `SyscallReplayCache::restart`
unfoldable pub user_tx_start : Write
user_tx_start k = set_replay (record k.syscall_replay_cache { ptr = 0 }) k

-- `user_tx_end`, behind it: `SyscallReplayCache::reset`
unfoldable pub user_tx_end : Write
user_tx_end k = set_replay (record k.syscall_replay_cache { tail = 0 }) k

unfoldable pub commit_syscall_tx_cache : Write
unfolding Cached.commit_reset_tail
commit_syscall_tx_cache k = record k {
  syscall_tx_cache = Cached.commit_reset_tail k.syscall_tx_cache;
}

unfoldable pub reset_list_transaction : Write
reset_list_transaction k = record k { list_tx_done = false }

-- `syscall_begin` of a call with a result of `size` bytes: the result, when it is replayed; else the
-- call runs.
unfoldable pub syscall_begin : ℕ → Syscalls → Option Bytes × Syscalls
unfolding get_entry Cached.reset_ptr
syscall_begin size k = elim (get_entry size k.syscall_replay_cache) [
  | some r ↦ (some r.0, set_replay r.1 k)
  | none ↦ (none, record k { syscall_tx_cache = Cached.reset_ptr k.syscall_tx_cache })
]

unfoldable pub syscall_end : ℕ → Bytes → Syscalls → Option (List Write)
unfolding add_entry_start commit_syscall_tx_cache reset_list_transaction add_entry_commit
syscall_end size ret k = elim (add_entry_start size ret k.syscall_replay_cache) [
  | none ↦ none
  | some ws ↦
      some (ws ++ (commit_syscall_tx_cache ∷ reset_list_transaction ∷ add_entry_commit ∷ []))
]

-- The part of `jit_recovery` for an incomplete return of a system call.
unfoldable pub recover_syscall : Syscalls → Syscalls
unfolding commit_syscall_tx_cache reset_list_transaction
recover_syscall k =
    if ltb k.syscall_replay_cache.ptr k.syscall_replay_cache.tail
    then reset_list_transaction (commit_syscall_tx_cache k)
    else k
