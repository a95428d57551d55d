-- ===== src/Tests/Replays.antt =====
-- A task of two transactions, each of which returns a byte and adds one to it, with a power failure in
-- the first (src/user/transaction.rs).
use int_os.Base.{◌+◌, ◌≡◌, refl, some, [], ◌∷◌, arith, leb, true, update}
use int_os.Journal as Undo
use int_os.Journal.{
  Bytes, Journal, append_log_of, write_record, record_sz, arch_addr_align_up, clear,
  copy_nonoverlapping,
}
use int_os.Journal.Undo.{Tx, begun, logged, wrote}
use int_os.TxCache as Cached
use int_os.TxCache.{TxCache}
use int_os.Transaction.{Machine, Body, begin, restart, user_recovery, performed}
use int_os.Replay.{
  Program, finished, tx, IsLogged, Boots, same, again, Fails, inside, in_body, outcome, execute,
  Fits,
}
use int_os.Replay.Exactly.{created, run-exactly_once, user_recovery-succeeds}
use int_os.Replay.Failed.{recover_uncommitted}

abbrev pub logged_byte : Bytes → Journal → Journal
logged_byte mem j = record j { logs = write_record 0 1 mem j; tail = j.tail + record_sz 1 }

abbrev pub count_up : Body
count_up = record {
  size = 1;
  result = λ mem i. mem 0;
  after = λ mem. update mem 0 (mem 0 + 1);
  logs = logged_byte;
}

abbrev counter : Program
counter = tx count_up (λ v. tx count_up (λ w. finished))

abbrev pub bytes : Bytes
bytes a = 7

abbrev pub journal : Journal
journal = record { magic_header = 0; tail = 0; logs = λ a. 0; magic_footer = 0 }

abbrev cache : TxCache
cache = record { cache = λ a. 0; ptr = 0; tail = 0 }

one_logged :
    (mem : Bytes) (j : Journal) → j.tail ≡ 0 → append_log_of 64 0 1 mem j ≡ some (logged_byte mem j)
unfolding append_log_of record_sz arch_addr_align_up
one_logged mem j e =
    let fits : leb (j.tail + record_sz 1) 64 ≡ true = ground (arith, e) in
    rw (fits, append_log_of) refl

count_up-Tx :
    (mem : Bytes) (j : Journal)
    → j.tail ≡ 0
    → Tx 64 mem
        (record { addr = 0; size = 1; bytes = λ i. mem (0 + i) } ∷ [])
        (update mem 0 (mem 0 + 1))
        (logged_byte mem j)
count_up-Tx mem j e =
    wrote 0 (mem 0 + 1) (logged 0 1 (begun e) (omega arith) (omega arith) (one_logged mem j e)) refl

counter-IsLogged : IsLogged 64 counter
counter-IsLogged = (
  λ mem j e. (record { addr = 0; size = 1; bytes = λ i. mem (0 + i) } ∷ [], count_up-Tx mem j e),
  λ v. (
    λ mem j e. (record { addr = 0; size = 1; bytes = λ i. mem (0 + i) } ∷ [], count_up-Tx mem j e),
    λ w. tt,
  ),
)

counter-Fits : Fits counter bytes 0 0
counter-Fits = omega arith

-- The power fails behind the write of the first body.
abbrev new : Machine
new = created bytes journal cache

abbrev torn : Machine
torn = performed count_up (begin new)

torn-Fails : Fails 64 counter new torn
unfolding Undo.init Cached.init begin Cached.try_retrieve_result
torn-Fails = inside refl (in_body refl (count_up-Tx bytes new.journal refl))

abbrev booted : Machine
booted = restart (record torn { mem = bytes; journal = clear torn.journal })

torn-booted : user_recovery torn ≡ some booted
unfolding Undo.init Cached.init begin Cached.clear_commit_flag
torn-booted =
    recover_uncommitted {journal_size = 64} torn 0 0 (omega arith) (omega arith) refl
      (count_up-Tx bytes new.journal refl)

torn-Boots : Boots 64 counter new booted
torn-Boots = again torn booted torn-Fails torn-booted (same refl)

-- The program returns 7 and 8, and the byte is then 9.
outcome-counter : (outcome counter bytes).0 ≡ (7 ∷ []) ∷ (8 ∷ []) ∷ []
unfolding outcome
outcome-counter = refl

run-exactly_once_example :
    (m' : Machine) × (execute counter booted ≡ some ((outcome counter bytes).0, m'))
    × (m'.mem ≡ (outcome counter bytes).1)
run-exactly_once_example =
    run-exactly_once 64 counter bytes journal cache counter-IsLogged counter-Fits torn-Boots

user_recovery-succeeds_example :
    (m : Machine) × (user_recovery torn ≡ some m) × (m.cache.ptr ≡ 0) × (m.journal.tail ≡ 0)
user_recovery-succeeds_example =
    user_recovery-succeeds 64 counter bytes journal cache counter-IsLogged counter-Fits (same refl)
      torn-Fails
