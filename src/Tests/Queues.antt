-- ===== src/Tests/Queues.antt =====
-- A queue with room for two items of three bytes (src/queue.rs).
use int_os.Base.{◌+◌, ◌≡◌, some, List, [], ◌∷◌, arith}
use int_os.Queue.{new, Queue, QueueErr}
use int_os.Journal.{Bytes}
use int_os.Queue.Runs.{Op, back, front, take, done, got, refused, AllSame, run, new-run}

abbrev item : Bytes
item b = b + 65

abbrev other : Bytes
other b = b + 97

-- The third push finds the queue full, and the third read finds it empty; the item that is pushed at
-- the front is read first.
abbrev ops : List Op
ops = back item ∷ front other ∷ back item ∷ take ∷ take ∷ take ∷ []

new-run_example :
    (q : Queue) × (new 2 3 (λ _. 0) ≡ some q)
    × AllSame 3 (run ops q) (
        done
        ∷ done
        ∷ refused QueueErr.queue_full
        ∷ got other
        ∷ got item
        ∷ refused QueueErr.queue_empty
        ∷ [])
new-run_example = new-run 2 3 (λ _. 0) ops (omega arith) (omega arith) (omega arith)
