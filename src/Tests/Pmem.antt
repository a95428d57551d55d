-- ===== src/Tests/Pmem.antt =====
-- A transaction that logs an object of two bytes and writes to it (src/pmem.rs).
use int_os.Base.{update, ◌%◌, ◌≡◌, refl, true, some, arith}
use int_os.Journal.{Bytes, Journal, append_log_of, recover, write_record, clear, is_empty}
use int_os.Journal.Undo.{recover-restores, wrote, logged, begun}

abbrev before : Bytes
before a = a % 256

abbrev fresh_journal : Journal
fresh_journal = record { magic_header = 0; tail = 0; logs = λ _. 0; magic_footer = 0 }

abbrev one_record : Journal
one_record = record fresh_journal { logs = write_record 100 2 before fresh_journal; tail = 12 }

one_record-appended : append_log_of 512 100 2 before fresh_journal ≡ some one_record
unfolding append_log_of
one_record-appended = refl

recover-restores_example :
    (recover (update before 101 7) one_record ≡ some (before, clear one_record))
    × (is_empty (clear one_record) ≡ true)
recover-restores_example =
    recover-restores
      (wrote 101 7 (logged 100 2 (begun refl) (omega arith) (omega arith) one_record-appended) refl)
