-- ===== src/Loop/Exit.antt =====
-- The end of an iteration (src/transaction.rs, `UserTxInfo`).
use int_os.Base.{
  zero, suc, if◌then◌else◌, ◌==◌, ℕ, ◌+◌, ◌<◌, ◌≡◌, ◌∙◌, ap, arith, refl, some, inl, ltb, true,
  false, ◌%◌, update, usize_mod, update-update,
}
use int_os.TxCache.{get_tx_id_of_tail, get_tx_id_of_ptr}
use int_os.TxCache.Fields.{composite, Tail, tail_id, ptr_id}
use int_os.Loop.{
  UserTxInfo, exit_idempotent_loop, exit_until, write, write_until, leave_tail, leave_ptr,
  leave_top, outer_tail, set_loop_cnt, recover_loop_end, log_loop_cnt, leave_loop,
}

-- The end of an iteration with a counter at `ptr`, of which at least one transaction is behind the
-- start.
module _ (u : UserTxInfo) (counters : ℕ → ℕ) (id id' at' cnt step ptr : ℕ)
    (inside : 0 < u.stack_top) (start : outer_tail u ≡ id) (more : id < id') (few : id' < 65536)
    (short : at' < 32768) (here : u.user_tx_cache.ptr ≡ composite id' at')
    (committed : Tail u.user_tx_cache.tail id' at') where
  abbrev pub counted : ℕ → ℕ
  counted = update counters ptr ((cnt + step) % usize_mod)

  abbrev ended : UserTxInfo
  ended = log_loop_cnt ptr cnt step u

  here_id : get_tx_id_of_ptr u.user_tx_cache ≡ id'
  here_id = ptr_id {id = id'} {at = at'} few short u.user_tx_cache here

  ids_left : get_tx_id_of_tail (leave_tail ended).user_tx_cache ≡ id
  unfolding leave_tail log_loop_cnt outer_tail
  ids_left = tail_id {id = id} {at = 0} (omega arith) (omega arith) _ (inl (start ∙ omega arith))

  ids_right : get_tx_id_of_ptr (leave_ptr (leave_tail ended)).user_tx_cache ≡ id
  unfolding leave_ptr leave_tail log_loop_cnt outer_tail
  ids_right = ptr_id {id = id} {at = 0} (omega arith) (omega arith) _ (start ∙ omega arith)

  set_ended :
      (f : ℕ → ℕ)
      → set_loop_cnt (leave_tail ended) f ≡ some (update f ptr ((cnt + step) % usize_mod))
  unfolding set_loop_cnt leave_tail log_loop_cnt
  set_ended f = refl

  deep : ltb 0 ended.stack_top ≡ true
  unfolding log_loop_cnt
  deep = ground arith

  started : (k : ℕ) → exit_until k ended counters ≡ write_until leave_loop k ended counters
  unfolding exit_until
  started k = rw (deep, exit_until) refl

  crossed :
      ltb
        (get_tx_id_of_tail (leave_tail ended).user_tx_cache)
        (get_tx_id_of_ptr (leave_tail ended).user_tx_cache)
      ≡ true
  unfolding leave_tail log_loop_cnt get_tx_id_of_ptr
  crossed = ground (arith, ids_left, here_id)

  redone :
      (f : ℕ → ℕ)
      → recover_loop_end (leave_tail ended) f ≡ some (update f ptr ((cnt + step) % usize_mod))
  unfolding recover_loop_end
  redone f = rw (crossed, recover_loop_end) (set_ended f)

  not_crossed :
      ltb (get_tx_id_of_tail ended.user_tx_cache) (get_tx_id_of_ptr ended.user_tx_cache) ≡ false
  unfolding log_loop_cnt
  not_crossed =
      ground (arith, here_id, tail_id {id = id'} {at = at'} few short u.user_tx_cache committed)

  ids_level : get_tx_id_of_tail (leave_ptr (leave_tail ended)).user_tx_cache ≡ id
  unfolding leave_ptr leave_tail log_loop_cnt get_tx_id_of_tail
  ids_level = ids_left

  level :
      ltb
        (get_tx_id_of_tail (leave_ptr (leave_tail ended)).user_tx_cache)
        (get_tx_id_of_ptr (leave_ptr (leave_tail ended)).user_tx_cache)
      ≡ false
  level = ground (arith, ids_level, ids_right)

  -- What a power failure behind `k` writes leaves, and the recovery makes of the counters.
  abbrev AtomicEnd : ℕ → Type 0
  AtomicEnd k =
      (v : UserTxInfo) × (c r : ℕ → ℕ) × (exit_until k ended counters ≡ some (v, c))
      × (recover_loop_end v c ≡ some r)
      × (recover_loop_end v r ≡ some r)
      × (r ≡ (if k == 0 then counters else counted))
      × (get_tx_id_of_tail v.user_tx_cache ≡ (if k == 0 then id' else id))

  -- The position is set, and then also the depth.
  settled : (f : ℕ → ℕ) → recover_loop_end (leave_ptr (leave_tail ended)) f ≡ some f
  unfolding recover_loop_end
  settled f = rw (level, recover_loop_end) refl

  settled_top : (f : ℕ → ℕ) → recover_loop_end (leave_top (leave_ptr (leave_tail ended))) f ≡ some f
  unfolding recover_loop_end leave_top
  settled_top f = rw (level, recover_loop_end) refl

  kept_counters : (f : ℕ → ℕ) → recover_loop_end ended f ≡ some f
  unfolding recover_loop_end
  kept_counters f = rw (not_crossed, recover_loop_end) refl

  cached : get_tx_id_of_tail ended.user_tx_cache ≡ id'
  unfolding log_loop_cnt
  cached = tail_id {id = id'} {at = at'} few short u.user_tx_cache committed

  dropped : get_tx_id_of_tail (leave_top (leave_ptr (leave_tail ended))).user_tx_cache ≡ id
  unfolding leave_top
  dropped = ids_level

  redone_again : recover_loop_end (leave_tail ended) counted ≡ some counted
  redone_again = redone counted ∙ ap some (update-update counters ptr _ _)

  crash : (k : ℕ) → AtomicEnd k
  unfolding leave_loop write_until write set_loop_cnt leave_tail log_loop_cnt
  crash zero = (
    ended,
    counters,
    counters,
    started 0,
    kept_counters counters,
    kept_counters counters,
    refl,
    cached,
  )
  crash (suc zero) = (
    leave_tail ended,
    counters,
    counted,
    started 1,
    redone counters,
    redone_again,
    refl,
    ids_left,
  )
  crash (suc (suc zero)) =
      (leave_tail ended, counted, counted, started 2, redone_again, redone_again, refl, ids_left)
  crash (suc (suc (suc zero))) = (
    leave_ptr (leave_tail ended),
    counted,
    counted,
    started 3,
    settled counted,
    settled counted,
    refl,
    ids_level,
  )
  crash (suc (suc (suc (suc k)))) = (
    leave_top (leave_ptr (leave_tail ended)),
    counted,
    counted,
    started (suc (suc (suc (suc k)))),
    settled_top counted,
    settled_top counted,
    ground arith,
    dropped ∙ ground arith,
  )

  -- The end of an iteration sets the counter once and drops the results of the transactions of the
  -- iteration, both or none, with a power failure behind any number `k` of its writes and a recovery
  -- that may itself fail behind its write. In front of the first write the recovery leaves the counter,
  -- and the results of all the transactions stay; behind it the recovery leaves the counter as the
  -- uninterrupted end does, and the results in front of the iteration stay. The iteration has run at
  -- least one transaction, all are committed, and the position of its start fits in the stack.
  pub exit-crash_safe :
      (k : ℕ)
      → (exit_idempotent_loop (log_loop_cnt ptr cnt step u) counters
          ≡ some (leave_top (leave_ptr (leave_tail (log_loop_cnt ptr cnt step u))), counted))
        × (v : UserTxInfo) × (c r : ℕ → ℕ) × (exit_until k (log_loop_cnt ptr cnt step u) counters
            ≡ some (v, c))
        × (recover_loop_end v c ≡ some r)
        × (recover_loop_end v r ≡ some r)
        × (r ≡ (if k == 0 then counters else counted))
        × (get_tx_id_of_tail v.user_tx_cache ≡ (if k == 0 then id' else id))
  unfolding exit_idempotent_loop leave_loop write_until write set_loop_cnt leave_tail log_loop_cnt
  exit-crash_safe k =
      let (v, c, r, cut, recovered, twice, counter, ids) = crash k in
      (started 4, v, c, r, cut, recovered, twice, counter, ids)
