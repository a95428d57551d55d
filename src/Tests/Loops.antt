-- ===== src/Tests/Loops.antt =====
-- A loop of a task behind two transactions with five bytes of results (src/transaction.rs).
use int_os.Base.{ℕ, ◌+◌, ◌≡◌, refl, some, none, inr, arith, false, update, ◌%◌, usize_mod}
use int_os.TxCache.{
  TxCache, is_committed, get_tx_id_of_tail, get_tx_cache_ptr_of_tail, tx_committed,
}
use int_os.TxCache.Fields.{composite}
use int_os.Transaction.{Machine, run}
use int_os.Loop.{
  UserTxInfo, enter_idempotent_loop, exit_idempotent_loop, log_loop_cnt, leave_tail, leave_ptr,
  leave_top, exit_until, outer_tail, recover_loop_end,
}
use int_os.Loop.Exit.{exit-crash_safe}
use int_os.Loop.Overwritten.{enter-exit-loses_results}
use int_os.Tests.Replays.{count_up, bytes, journal}

abbrev results : ℕ → ℕ
results a = a + 1

-- In front of the loop, in it, and at the end of its first iteration, of one transaction.
abbrev before : UserTxInfo
before = record {
  user_tx_cache = record {
    cache = results;
    ptr = composite 2 5;
    tail = composite 2 5 + tx_committed;
  };
  stack_top = 0;
  tail_stack = λ l. 0;
  loop_cnt_log = 0;
  loop_cnt_ptr = none;
  step = 0;
}

abbrev entered : UserTxInfo
entered = record before { stack_top = 1; tail_stack = update (λ l. 0) 0 2 }

abbrev iterated : UserTxInfo
iterated = record entered {
  user_tx_cache = record {
    cache = results;
    ptr = composite 3 6;
    tail = composite 3 6 + tx_committed;
  };
}

before-entered : enter_idempotent_loop before ≡ some entered
unfolding enter_idempotent_loop
before-entered = refl

abbrev counters : ℕ → ℕ
counters a = 4

abbrev counted : ℕ → ℕ
counted = update counters 9 ((4 + 1) % usize_mod)

started : outer_tail iterated ≡ 2
unfolding outer_tail
started = refl

-- The power fails behind the first write.
exit-crash_safe_example :
    (exit_idempotent_loop (log_loop_cnt 9 4 1 iterated) counters
      ≡ some (leave_top (leave_ptr (leave_tail (log_loop_cnt 9 4 1 iterated))), counted))
    × (v : UserTxInfo) × (c r : ℕ → ℕ) × (exit_until 1 (log_loop_cnt 9 4 1 iterated) counters
        ≡ some (v, c))
    × (recover_loop_end v c ≡ some r)
    × (recover_loop_end v r ≡ some r)
    × (r ≡ counted)
    × (get_tx_id_of_tail v.user_tx_cache ≡ 2)
exit-crash_safe_example =
    exit-crash_safe iterated counters 2 3 6 4 1 9 (omega arith) started (omega arith) (omega arith)
      (omega arith) refl (inr refl) 1

abbrev left : TxCache
left = (leave_ptr (leave_tail entered)).user_tx_cache

enter-exit-loses_results_example :
    (is_committed left ≡ false)
    × (get_tx_id_of_tail left ≡ 2)
    × (get_tx_cache_ptr_of_tail left ≡ 0)
    × (m' : Machine) × (run count_up (record { mem = bytes; journal = journal; cache = left })
        ≡ some m')
    × (m'.cache.cache 0 ≡ 7)
enter-exit-loses_results_example =
    enter-exit-loses_results before entered 2 5 (omega arith) (omega arith) refl before-entered
      (record { mem = bytes; journal = journal; cache = left }) count_up refl (omega arith)
      (omega arith) 0 (omega arith)
