-- ===== src/Loop.antt =====
-- The loops of a task whose iterations are not replayed, src/transaction.rs (`UserTxInfo`), with
-- `opt_loop_end` and `opt_tx_cache_space`, on a machine of 32 bits, and what `jit_recovery` of
-- src/task.rs does for them. A counter of a loop is a number at an address.
pub mod Exit
pub mod Overwritten
use Prim.Native.Nat.{bit_or}
use int_os.Base.{
  ℕ, zero, suc, ◌+◌, ◌-◌, ◌^◌, ◌%◌, Bool, Option, none, some, List, [], ◌∷◌, update, ltb,
  if◌then◌else◌, usize_mod,
}
use int_os.TxCache.{TxCache, tx_committed, get_tx_id_of_tail, get_tx_id_of_ptr, reset_ptr}

abbrev pub default_stack_depth : ℕ
default_stack_depth = 8

pub record UserTxInfo : Type 0 where
  pub user_tx_cache : TxCache
  pub stack_top : ℕ
  pub tail_stack : ℕ → ℕ
  pub loop_cnt_log : ℕ
  pub loop_cnt_ptr : Option ℕ
  pub step : ℕ

-- `none` where the index is out of the array of `u16`.
unfoldable pub enter_idempotent_loop : UserTxInfo → Option UserTxInfo
enter_idempotent_loop u =
    if ltb u.stack_top default_stack_depth
    then some (record u {
      tail_stack =
          update u.tail_stack u.stack_top (bit_or u.user_tx_cache.ptr tx_committed % 2 ^ 16);
      stack_top = u.stack_top + 1;
    })
    else none

unfoldable pub log_loop_cnt : ℕ → ℕ → ℕ → UserTxInfo → UserTxInfo
log_loop_cnt ptr old_cnt step u = record u {
  loop_cnt_ptr = some ptr;
  loop_cnt_log = old_cnt;
  step = step;
}

-- The counters behind `set_loop_cnt`: `none` where no loop was logged, which is undefined behaviour.
unfoldable pub set_loop_cnt : UserTxInfo → (ℕ → ℕ) → Option (ℕ → ℕ)
set_loop_cnt u counters = elim u.loop_cnt_ptr [
  | none ↦ none
  | some ptr ↦ some (update counters ptr ((u.loop_cnt_log + u.step) % usize_mod))
]

-- The writes of the end of an iteration. The index panics below an outer loop.
unfoldable pub outer_tail : UserTxInfo → ℕ
outer_tail u = u.tail_stack (u.stack_top - 1)

unfoldable pub leave_tail : UserTxInfo → UserTxInfo
unfolding outer_tail
leave_tail u = record u { user_tx_cache = record u.user_tx_cache { tail = outer_tail u } }

unfoldable pub leave_ptr : UserTxInfo → UserTxInfo
unfolding outer_tail
leave_ptr u = record u { user_tx_cache = record u.user_tx_cache { ptr = outer_tail u } }

unfoldable pub leave_top : UserTxInfo → UserTxInfo
leave_top u = record u { stack_top = u.stack_top - 1 }

pub data Write : Type 0 where
  set_tail : Write
  set_counter : Write
  set_ptr : Write
  set_top : Write

-- One write, to the loops of the task and the counters.
unfoldable pub write : Write → UserTxInfo → (ℕ → ℕ) → Option (UserTxInfo × (ℕ → ℕ))
unfolding leave_tail set_loop_cnt leave_ptr leave_top
write set_tail u counters = some (leave_tail u, counters)
write set_counter u counters = elim (set_loop_cnt u counters) [
  | none ↦ none
  | some counters' ↦ some (u, counters')
]
write set_ptr u counters = some (leave_ptr u, counters)
write set_top u counters = some (leave_top u, counters)

-- The first `k` writes of a list.
unfoldable pub write_until : List Write → ℕ → UserTxInfo → (ℕ → ℕ) → Option (UserTxInfo × (ℕ → ℕ))
unfolding write
write_until [] k u counters = some (u, counters)
write_until (w ∷ ws) zero u counters = some (u, counters)
write_until (w ∷ ws) (suc k) u counters = elim (write w u counters) [
  | none ↦ none
  | some (u', counters') ↦ write_until ws k u' counters'
]

-- The writes in the order of the code.
unfoldable pub leave_loop : List Write
leave_loop = set_tail ∷ set_counter ∷ set_ptr ∷ set_top ∷ []

-- The end of an iteration, up to a power failure behind `k` writes.
unfoldable pub exit_until : ℕ → UserTxInfo → (ℕ → ℕ) → Option (UserTxInfo × (ℕ → ℕ))
unfolding leave_loop write_until
exit_until k u counters = if ltb 0 u.stack_top then write_until leave_loop k u counters else none

unfoldable pub exit_idempotent_loop : UserTxInfo → (ℕ → ℕ) → Option (UserTxInfo × (ℕ → ℕ))
unfolding exit_until
exit_idempotent_loop u counters = exit_until 4 u counters

-- The part of `jit_recovery` for a failure at the end of an iteration.
unfoldable pub recover_loop_end : UserTxInfo → (ℕ → ℕ) → Option (ℕ → ℕ)
unfolding set_loop_cnt get_tx_id_of_tail get_tx_id_of_ptr
recover_loop_end u counters =
    if ltb (get_tx_id_of_tail u.user_tx_cache) (get_tx_id_of_ptr u.user_tx_cache)
    then set_loop_cnt u counters
    else some counters

-- `UserTxInfo::restart`
unfoldable pub restart : UserTxInfo → UserTxInfo
unfolding reset_ptr
restart u = record u { user_tx_cache = reset_ptr u.user_tx_cache; stack_top = 0 }
