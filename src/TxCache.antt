-- ===== src/TxCache.antt =====
-- The results of a task's transactions, src/transaction.rs (`TxCache`), for their replay after a power
-- failure: with `opt_tx_cache_space`, on a machine of 32 bits. `tail` has the commit flag in the
-- highest bit, the position behind the cached results in the 15 bits below it, and the number of
-- transactions in the lower half; `ptr` says in the same way how far a replay has come. A result is
-- its bytes and the size of its type.
pub mod Fields
use Prim.Native.Nat.{bit_and, bit_or}
use int_os.Base.{
  ℕ, ◌+◌, ◌-◌, ◌*◌, ◌/◌, ◌%◌, Bool, Option, none, some, usize_mod, ltb, leb, ◌==◌, if◌then◌else◌,
}
use int_os.Journal.{Bytes}

pub record TxCache : Type 0 where
  pub cache : Bytes
  pub ptr : ℕ
  pub tail : ℕ

abbrev pub tx_cache_sz : ℕ
tx_cache_sz = 64

abbrev pub tx_committed : ℕ
tx_committed = 0x80000000

abbrev pub tx_cache_ptr_mask : ℕ
tx_cache_ptr_mask = 0x7FFF0000

abbrev pub tx_id_ptr_mask : ℕ
tx_id_ptr_mask = 0x0000FFFF

-- `1 << TX_CACHE_PTR_SHIFT`
abbrev pub tx_cache_ptr_unit : ℕ
tx_cache_ptr_unit = 65536

unfoldable pub init : TxCache → TxCache
init c = record c { ptr = 0; tail = 0 }

unfoldable pub is_committed : TxCache → Bool
is_committed c = bit_and c.tail tx_committed == tx_committed

unfoldable pub reset_ptr : TxCache → TxCache
reset_ptr c = record c { ptr = 0 }

unfoldable pub commit_reset_tail : TxCache → TxCache
commit_reset_tail c = record c { tail = tx_committed }

-- `tail |= TX_COMMITTED`
unfoldable pub commit_no_replay : TxCache → TxCache
commit_no_replay c = record c { tail = bit_or c.tail tx_committed }

-- `tail &= !TX_COMMITTED`, of `Transaction`
unfoldable pub clear_commit_flag : TxCache → TxCache
clear_commit_flag c = record c { tail = bit_and c.tail (usize_mod - 1 - tx_committed) }

unfoldable pub get_tx_id_of_tail : TxCache → ℕ
get_tx_id_of_tail c = bit_and c.tail tx_id_ptr_mask

unfoldable pub get_tx_cache_ptr_of_tail : TxCache → ℕ
get_tx_cache_ptr_of_tail c = bit_and c.tail tx_cache_ptr_mask / tx_cache_ptr_unit

unfoldable pub get_tx_cache_ptr_of_ptr : TxCache → ℕ
get_tx_cache_ptr_of_ptr c = bit_and c.ptr tx_cache_ptr_mask / tx_cache_ptr_unit

unfoldable pub get_tx_id_of_ptr : TxCache → ℕ
get_tx_id_of_ptr c = bit_and c.ptr tx_id_ptr_mask

unfoldable pub advance_composite_id : ℕ → ℕ → ℕ → ℕ
advance_composite_id tx_id cache_ptr cached_ret_val_sz =
    bit_or ((tx_id + 1) % usize_mod)
      ((cache_ptr + cached_ret_val_sz) % usize_mod * tx_cache_ptr_unit % usize_mod)

-- The tail, without the commit flag, behind one more result of `rec_size` bytes.
unfoldable pub advanced_tail : ℕ → TxCache → ℕ
unfolding advance_composite_id get_tx_id_of_tail get_tx_cache_ptr_of_tail
advanced_tail rec_size c =
    advance_composite_id (get_tx_id_of_tail c) (get_tx_cache_ptr_of_tail c) rec_size

unfoldable pub advance_ptr_on_empty : TxCache → TxCache
advance_ptr_on_empty c = record c { ptr = (c.ptr + 1) % usize_mod }

-- `try_retrieve_result` of a type of `rec_sz` bytes: the bytes, and the cache with the next position.
-- `&self.cache[cache_ptr]` panics behind the cache; it is not reached there, and gives other bytes.
unfoldable pub try_retrieve_result : ℕ → TxCache → Option (Bytes × TxCache)
unfolding get_tx_id_of_ptr get_tx_id_of_tail get_tx_cache_ptr_of_ptr advance_composite_id
    advance_ptr_on_empty
try_retrieve_result rec_sz c =
    if ltb (get_tx_id_of_ptr c) (get_tx_id_of_tail c)
    then (if ltb 0 rec_sz
        then some (
          λ i. c.cache (get_tx_cache_ptr_of_ptr c + i),
          record c {
            ptr = advance_composite_id (get_tx_id_of_ptr c) (get_tx_cache_ptr_of_ptr c) rec_sz;
          },
        )
        else some (c.cache, advance_ptr_on_empty c))
    else none
