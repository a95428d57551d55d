-- ===== src/Tests/Semaphores.antt =====
-- Semaphores with a few tasks (src/semaphore.rs).
use int_os.Base.{ℕ, ◌≤◌, ◌+◌, ◌≡◌, ◌⊎◌, refl, some, arith, true, List, [], ◌∷◌, length}
use int_os.OpLog.{TaskId}
use int_os.Semaphore.{
  new, give, try_take, semaphore_take, checked_add, taken, timed_out, Semaphore, Wake,
}
use int_os.Messages.{insert_waiter, wakeup_time}
use int_os.Semaphore.Blocking.{
  Shared, takes, sleeps, take_pass, wait_to_take, semaphore_give, wake_taker,
}
use int_os.Semaphore.Holders.{
  Reach, start, step, calls, holds, semaphore-Reach, take-give-take_twice,
}

abbrev equal : TaskId → ℕ
equal t = 3

-- Task 5 holds a mutex, and task 6 waits for it.
abbrev taken_by_5 : Shared
taken_by_5 = record {
  sem = record { count = 0; mutex_holder = some 5; is_mutex = true; size = 1 };
  wait_list = [];
  woken = [];
}

abbrev contended : Shared
contended = record taken_by_5 { wait_list = record { task = 6; wakeup_time = 110 } ∷ [] }

contended-Reach : Reach equal (new 1) (contended, 5 ∷ [])
unfolding new take_pass try_take wait_to_take wakeup_time checked_add insert_waiter
contended-Reach =
    step (step start (calls {c' = taken_by_5} {p = takes} 5 0 99 refl refl))
      (calls {c' = contended} {p = sleeps 110} 6 10 100 refl refl)

semaphore-Reach_example :
    (contended.sem.count + length {A = TaskId} (5 ∷ []) ≡ 1)
    × ((contended.wait_list ≡ []) ⊎ (contended.sem.count ≤ length contended.woken))
    × ((t : TaskId)
        → holds t (5 ∷ []) ≡ true
        → semaphore_give contended
          ≡ some (
              wake_taker (record contended {
                sem = record contended.sem { count = contended.sem.count + 1 };
              })))
semaphore-Reach_example = semaphore-Reach equal 1 contended-Reach

-- Another task holds the mutex, also at the two wakes.
abbrev held : Semaphore
held = record { count = 0; mutex_holder = some 5; is_mutex = true; size = 1 }

abbrev wakes : List Wake
wakes = record { semaphore = held; ticks = 104 } ∷ record { semaphore = held; ticks = 110 } ∷ []

gave_up : semaphore_take 6 10 held 100 wakes ≡ timed_out
unfolding semaphore_take checked_add
gave_up = refl

take-give-take_twice_example :
    (s₁ s₂ s₃ : Semaphore) × (semaphore_take 5 0 (new 1) 0 [] ≡ taken s₁)
    × (give s₁ ≡ some (true, s₂))
    × (semaphore_take 5 0 s₂ 0 [] ≡ taken s₂)
    × (semaphore_take 6 0 s₂ 0 [] ≡ taken s₃)
take-give-take_twice_example = take-give-take_twice 5 6 0 0 [] (ground arith)
