-- ===== src/Tests/Exchange.antt =====
-- Two tasks that share a queue (src/queue.rs).
use int_os.Base.{◌+◌, ◌≤◌, ◌≡◌, ◌⊎◌, refl, arith, true, none, List, [], ◌∷◌, length}
use int_os.Journal.{Bytes, copy_nonoverlapping}
use int_os.Queue.{Queue, ok, new, push_back, dequeue, advance}
use int_os.Queue.Holds.{IsQueue}
use int_os.Schedule.{remove_task}
use int_os.Semaphore.{checked_add}
use int_os.Pm.State.{priority_gt}
use int_os.Messages.{
  Channel, returns, sleeps, queue_send_pass, queue_receive_pass, wait_to_receive, wakeup_time,
  insert_waiter, wake_reader,
}
use int_os.Messages.Woken.{Runs, made, send, receive, Runs-wakes}

abbrev item : Bytes
item b = b + 65

abbrev empty : Queue
empty = record {
  length = 2;
  item_size = 3;
  buffer = λ _. 0;
  read_pos = 0;
  write_pos = 0;
  tail = 6;
  items_enqueued = 0;
}

-- Task 8 sleeps for an item, until the time 110.
abbrev waits : Channel
waits = record {
  queue = empty;
  blocked_readers = record { task = 8; wakeup_time = 110 } ∷ [];
  blocked_writers = [];
  woken_readers = [];
  woken_writers = [];
}

-- So does task 7, until 120: it is behind task 8.
abbrev both_wait : Channel
both_wait = record waits {
  blocked_readers =
      record { task = 8; wakeup_time = 110 } ∷ record { task = 7; wakeup_time = 120 } ∷ [];
}

-- Task 9 has sent one, and task 8 is woken.
abbrev sent : Channel
sent = record waits {
  queue = record empty {
    buffer = copy_nonoverlapping 3 item 0 (λ _. 0) 0;
    write_pos = 3;
    items_enqueued = 1;
  };
  blocked_readers = record { task = 7; wakeup_time = 120 } ∷ [];
  woken_readers = 8 ∷ [];
}

waits-Runs : Runs (λ t. t) 2 3 waits
unfolding new queue_receive_pass dequeue wait_to_receive wakeup_time checked_add insert_waiter
    remove_task
waits-Runs =
    receive {c' = waits} {p = sleeps 110} 8 10 none 100 (made {q = empty} (λ _. 0) refl) refl

both_wait-Runs : Runs (λ t. t) 2 3 both_wait
unfolding queue_receive_pass dequeue wait_to_receive wakeup_time checked_add insert_waiter
    remove_task priority_gt
both_wait-Runs = receive {c' = both_wait} {p = sleeps 120} 7 20 none 100 waits-Runs refl

sent-Runs : Runs (λ t. t) 2 3 sent
unfolding queue_send_pass push_back advance wake_reader remove_task
sent-Runs = send {c' = sent} {p = returns (ok tt)} true item 9 0 none 101 both_wait-Runs refl

Runs-wakes_example :
    (xs : List Bytes) × IsQueue sent.queue xs
    × (sent.queue.length ≡ 2)
    × ((sent.blocked_readers ≡ []) ⊎ (length xs ≤ 1))
    × ((sent.blocked_writers ≡ []) ⊎ (2 ≤ length xs + 0))
Runs-wakes_example = Runs-wakes (omega arith) (omega arith) (omega arith) sent-Runs
