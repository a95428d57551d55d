-- ===== src/Transaction.antt =====
-- The transactions of a task, src/transaction.rs (`Transaction`), over the undo journal and the cached
-- results, and their recovery, src/task.rs (`user_recovery`). What a transaction does to persistent
-- memory is a list of writes, each of which is atomic: the power may fail between any two.
-- `nesting_level` is compiled into debug builds only.
pub mod Commit
use Prim.Native.Nat.{bit_or}
use int_os.Base.{
  ℕ, zero, suc, ◌+◌, ◌%◌, Bool, true, false, Option, none, some, List, [], ◌∷◌, ◌++◌, usize_mod,
  ltb, leb, if◌then◌else◌, update,
}
use int_os.Journal as Undo
use int_os.Journal.{Bytes, Journal, recover}
use int_os.TxCache as Cached
use int_os.TxCache.{
  TxCache, tx_cache_sz, tx_committed, is_committed, reset_ptr, clear_commit_flag,
  get_tx_cache_ptr_of_tail, advanced_tail, try_retrieve_result,
}

-- The persistent memory of one task's transactions: `Transaction`, with what it points to.
pub record Machine : Type 0 where
  pub mem : Bytes
  pub journal : Journal
  pub cache : TxCache

abbrev pub Write : Type 0
Write = Machine → Machine

unfoldable pub perform : List Write → Machine → Machine
perform [] m = m
perform (w ∷ ws) m = perform ws (w m)

-- The power fails behind the given number of writes, if there are more.
unfoldable pub cut : ℕ → List Write → Machine → Machine
cut zero ws m = m
cut (suc n) [] m = m
cut (suc n) (w ∷ ws) m = cut n ws (w m)

-- The closure of a transaction, which returns a value of `size` bytes: the value and the memory depend
-- on the memory that it starts with, and it adds to the journal.
pub record Body : Type 0 where
  pub size : ℕ
  pub result : Bytes → Bytes
  pub after : Bytes → Bytes
  pub logs : Bytes → Journal → Journal

abbrev pub put_byte : ℕ → ℕ → Write
put_byte a v m = record m { cache = record m.cache { cache = update m.cache.cache a v } }

abbrev pub set_tail : ℕ → Write
set_tail t m = record m { cache = record m.cache { tail = t } }

abbrev pub set_ptr : ℕ → Write
set_ptr p m = record m { cache = record m.cache { ptr = p } }

abbrev pub clear_journal : Write
clear_journal m = record m { journal = Undo.clear m.journal }

-- `copy_nonoverlapping` to position `at` of the cache: `n` more bytes, from byte `i` on.
unfoldable pub copy_writes : ℕ → ℕ → Bytes → ℕ → List Write
copy_writes zero i res at = []
copy_writes (suc n) i res at = put_byte (at + i) (res i) ∷ copy_writes n (suc i) res at

unfoldable pub commit_no_ret_value : TxCache → List Write
commit_no_ret_value c =
    set_tail (bit_or ((c.tail + 1) % usize_mod) tx_committed)
    ∷ set_ptr ((c.ptr + 1) % usize_mod)
    ∷ []

unfoldable pub cache_result : ℕ → Bytes → TxCache → List Write
unfolding copy_writes commit_no_ret_value advanced_tail get_tx_cache_ptr_of_tail
cache_result rec_size res c =
    if ltb 0 rec_size
    then copy_writes rec_size 0 res (get_tx_cache_ptr_of_tail c)
      ++ (set_tail (bit_or (advanced_tail rec_size c) tx_committed)
          ∷ set_ptr (advanced_tail rec_size c)
          ∷ [])
    else commit_no_ret_value c

-- Whether the result fits: a longer one panics, or is written over what stands behind the cache.
unfoldable pub has_room : ℕ → TxCache → Bool
unfolding get_tx_cache_ptr_of_tail
has_room rec_size c =
    if ltb 0 rec_size then leb (get_tx_cache_ptr_of_tail c + rec_size) tx_cache_sz else true

unfoldable pub commit : ℕ → Bytes → TxCache → List Write
unfolding cache_result
commit size res c = cache_result size res c ++ (clear_journal ∷ [])

unfoldable pub begin : Write
unfolding clear_commit_flag
begin m = record m { cache = clear_commit_flag m.cache }

-- The body has run to its end.
abbrev pub performed : Body → Write
performed b m = record m { mem = b.after m.mem; journal = b.logs m.mem m.journal }

-- `Transaction::run`: `none` where the result does not fit.
unfoldable pub run : Body → Machine → Option Machine
unfolding begin has_room commit perform
run b m =
    let m' = performed b (begin m) in
    if has_room b.size m'.cache
    then some (perform (commit b.size (b.result m.mem) m'.cache) m')
    else none

-- The `n` bytes from `at` on.
abbrev pub object : ℕ → ℕ → Bytes → List ℕ
object zero at f = []
object (suc n) at f = f at ∷ object n (suc at) f

-- `run` of src/user/transaction.rs: the cached result, or the transaction.
unfoldable pub user_run : Body → Machine → Option (List ℕ × Machine)
unfolding try_retrieve_result run
user_run b m = elim (try_retrieve_result b.size m.cache) [
  | some (v, c) ↦ some (object b.size 0 v, record m { cache = c })
  | none ↦ elim (run b m) [ none ↦ none | some m' ↦ some (object b.size 0 (b.result m.mem), m') ]
]

-- `check_committed`, with the journal cleared
abbrev pub check_committed : Machine → Option Machine
check_committed m = if is_committed m.cache then some (clear_journal m) else none

unfoldable pub roll_back : Machine → Option Machine
unfolding recover
roll_back m = elim (recover m.mem m.journal) [
  | none ↦ none
  | some (mem', j') ↦ some (record m { mem = mem'; journal = j' })
]

unfoldable pub restart : Write
unfolding reset_ptr
restart m = record m { cache = reset_ptr m.cache }

-- `user_recovery`: `none` where the journal cannot be recovered. The other state that it resets, the
-- nesting level, the stack of loops and the replay cache of system calls, is not part of the memory.
unfoldable pub user_recovery : Machine → Option Machine
unfolding roll_back restart is_committed
user_recovery m = elim (check_committed m) [
  | some m' ↦ some (restart m')
  | none ↦ elim (roll_back m) [ none ↦ none | some m' ↦ some (restart m') ]
]
