-- ===== src/Semaphore/Deadline.antt =====
-- The time that a take waits (src/semaphore.rs, `semaphore_take`).
use int_os.Base.{ℕ, ◌-◌, ◌≡◌, ◌⊎◌, Bool, true, false, some, List, [], ◌∷◌, leb, ◌||◌}
use int_os.OpLog.{TaskId}
use int_os.Semaphore.{Semaphore, Taken, taken, timed_out, asleep, Wake}

-- Whether one of the wakes is at the time `d` or later.
abbrev pub reaches : ℕ → List Wake → Bool
reaches d [] = false
reaches d (w ∷ ws) = leb d w.ticks || reaches d ws

-- The semaphore is taken, or the deadline `d` is over, or the task sleeps and it is not.
abbrev Ends : ℕ → List Wake → Taken → Type 0
Ends d wakes r =
    ((s : Semaphore) × (r ≡ taken s))
    ⊎ ((r ≡ timed_out) × (reaches d wakes ≡ true))
    ⊎ ((r ≡ asleep) × (reaches d wakes ≡ false))

abbrev took : TaskId → Semaphore → Semaphore
took task s = record s { count = s.count - 1; mutex_holder = some task }
