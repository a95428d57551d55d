-- ===== src/Loop/Overwritten.antt =====
-- The results in front of a loop (src/transaction.rs, `UserTxInfo`).
use Prim.Native.Nat.{bit_or}
use int_os.Base.{
  ℕ, ◌+◌, ◌-◌, ◌≤◌, ◌<◌, ◌≡◌, ◌∙◌, ap, arith, refl, some, inl, ltb, true, false, ◌^◌, ◌%◌, or-top,
  update, taken, update_self,
}
use int_os.TxCache.{
  TxCache, is_committed, get_tx_id_of_tail, get_tx_cache_ptr_of_tail, tx_committed, tx_cache_sz,
  clear_commit_flag,
}
use int_os.TxCache.Fields.{composite, tail_id, tail_at, is_committed-clear, clear-tail}
use int_os.Transaction.{commit, run, perform, Body, Machine, performed, begin, has_room}
use int_os.Loop.{
  UserTxInfo, enter_idempotent_loop, leave_tail, leave_ptr, outer_tail, default_stack_depth,
}
use mathlib.Core.Path.{subst}
use int_os.Transaction.Commit.{commit-Finished}

-- What the stack keeps of a position with `at` bytes of results: the number of transactions only.
stacked :
    (p id at : ℕ)
    → id < 65536
    → at < 32768
    → p ≡ composite id at
    → bit_or p tx_committed % 2 ^ 16 ≡ id
stacked p id at few short e = omega (arith, or-top p (omega (arith, e)), e)

back : (n : ℕ) → n + 1 - 1 ≡ n
back n = omega arith

-- A loop that starts behind `at` bytes of results, and whose end restores the position of its start.
module _ (u v : UserTxInfo) (id at : ℕ) (few : id < 65536) (short : at < 32768)
    (here : u.user_tx_cache.ptr ≡ composite id at)
    (entered : enter_idempotent_loop u ≡ some v) where
  kept : v.tail_stack (v.stack_top - 1) ≡ id
  unfolding enter_idempotent_loop
  kept =
      subst (λ w. w.tail_stack (w.stack_top - 1) ≡ id)
        (taken (ltb u.stack_top default_stack_depth) _ v entered)
        (ap (update u.tail_stack u.stack_top (bit_or u.user_tx_cache.ptr tx_committed % 2 ^ 16))
            (back u.stack_top)
          ∙ update_self u.tail_stack u.stack_top _
          ∙ stacked u.user_tx_cache.ptr id at few short here)

  abbrev left : TxCache
  left = (leave_ptr (leave_tail v)).user_tx_cache

  left_tail : left.tail ≡ composite id 0
  unfolding leave_ptr leave_tail outer_tail
  left_tail = kept ∙ omega arith

  left_ptr : left.ptr ≡ composite id 0
  unfolding leave_ptr leave_tail outer_tail
  left_ptr = kept ∙ omega arith

  module _ (m : Machine) (b : Body) (after_loop : m.cache ≡ left) (fits : b.size ≤ tx_cache_sz)
      (count : id + 1 < 65536) where
    abbrev base : Machine
    base = performed b (begin m)

    base_tail : base.cache.tail ≡ composite id 0
    unfolding begin
    base_tail =
        clear-tail {id = id} {at = 0} few (omega arith) m.cache
          (inl (ap (λ (c : TxCache). c.tail) after_loop ∙ left_tail))

    base_ptr : base.cache.ptr ≡ composite id 0
    unfolding begin clear_commit_flag
    base_ptr = ap (λ (c : TxCache). c.ptr) after_loop ∙ left_ptr

    room : has_room b.size base.cache ≡ true
    unfolding has_room
    room =
        rw (tail_at {id = id} {at = 0} few (omega arith) base.cache (inl base_tail)) (ground arith)

    -- On a machine of 32 bits the stack of `u16` keeps the number of transactions only: the end of a
    -- loop clears the commit flag and sets the position of the cached results to 0, whatever results
    -- there are. The next transaction, if its result fits in the cache, stores it over the first ones.
    pub enter-exit-loses_results :
        (i : ℕ)
        → i < b.size
        → (is_committed left ≡ false)
          × (get_tx_id_of_tail left ≡ id)
          × (get_tx_cache_ptr_of_tail left ≡ 0)
          × (m' : Machine) × (run b m ≡ some m')
          × (m'.cache.cache i ≡ b.result m.mem i)
    unfolding run
    enter-exit-loses_results i lt = (
      is_committed-clear {id = id} {at = 0} few (omega arith) left left_tail,
      tail_id {id = id} {at = 0} few (omega arith) left (inl left_tail),
      tail_at {id = id} {at = 0} few (omega arith) left (inl left_tail),
      perform (commit b.size (b.result m.mem) base.cache) base,
      rw (room, run) refl,
      ap (perform (commit b.size (b.result m.mem) base.cache) base).cache.cache (omega arith)
          ∙ (commit-Finished base id 0 b.size (b.result m.mem) count (omega arith) base_tail
                base_ptr).committed.bytes
              i lt,
    )
