-- ===== src/Tests/Schedules.antt =====
-- The scheduler at concrete lists.
use int_os.Base.{
  ℕ, ◌≡◌, refl, arith, true, false, some, List, [], ◌∷◌, ◌++◌, ◌==◌, has, if◌then◌else◌,
}
use int_os.OpLog.{TaskId}
use int_os.Pm.State.{TaskState}
use int_os.Semaphore.{checked_add}
use int_os.Schedule.{
  Scheduler, task_delay, process_tick, task_switch, switch_from, peek_next, context_switch,
  add_to_delayed_list, remove_from_ready_list, remove_task, insert_delayed,
}
use int_os.Schedule.Tick.{process_tick-wakes, IsTimely}
use int_os.Schedule.Wakes.{sleeps}
use int_os.Schedule.Steps.{start, tick, switch}
use int_os.Schedule.OnTime.{task_delay-wakes_on_time}
use int_os.Schedule.Round.{switches, switches-round_robin}
use int_os.Schedule.Starves.{delays, delays-starves}

-- Three tasks of the priority 2, and an idle task of the priority 7.
abbrev lists : ℕ → List TaskId
lists p = if p == 2 then 11 ∷ 12 ∷ 13 ∷ [] else if p == 7 then 19 ∷ [] else []

abbrev priorities : TaskId → ℕ
priorities t = if t == 19 then 7 else 2

abbrev three : Scheduler
three = record {
  tick_counter = 5;
  next_unblock_time = 4294967295;
  delayed_task_list = [];
  task_lists = lists;
  status = λ t. if t == 11 then TaskState.running else TaskState.ready;
  priority = priorities;
  waits = λ t. false;
  current = 11;
}

-- Two tasks are delayed too, one of them until the next tick.
abbrev waiting : Scheduler
waiting = record three {
  next_unblock_time = 6;
  delayed_task_list =
      record { task = 14; wakeup_time = 6 } ∷ record { task = 15; wakeup_time = 9 } ∷ [];
}

process_tick-wakes_example :
    ((process_tick waiting).tick_counter ≡ 6)
    × ((process_tick waiting).delayed_task_list ≡ record { task = 15; wakeup_time = 9 } ∷ [])
    × ((p : ℕ) → (process_tick waiting).task_lists p ≡ lists p ++ (if p == 2 then 14 ∷ [] else []))
    × IsTimely (process_tick waiting)
    × ((process_tick waiting).priority ≡ priorities)
    × ((process_tick waiting).current ≡ 11)
process_tick-wakes_example =
    process_tick-wakes waiting (omega arith, (omega arith, tt)) (omega arith)

switches-round_robin_example :
    (s' : Scheduler) × (switches 3 three ≡ some (12 ∷ 13 ∷ 11 ∷ [], s'))
    × (s'.current ≡ 11)
    × ((p : ℕ) → s'.task_lists p ≡ lists p)
switches-round_robin_example =
    switches-round_robin 2 11 (12 ∷ 13 ∷ []) three (omega arith) (λ j below. ground (arith, below))
      refl refl (refl, (refl, (refl, tt)))

-- Four tasks of the priority 2.
abbrev four : Scheduler
four = record three {
  task_lists = λ p. if p == 2 then 11 ∷ 12 ∷ 13 ∷ 14 ∷ [] else if p == 7 then 19 ∷ [] else [];
}

delays-starves_example :
    (ts : List TaskId) × (s' : Scheduler) × (delays 1000 four ≡ some (ts, s'))
    × (has 12 ts ≡ false)
    × (has 12 (s'.task_lists 2) ≡ true)
delays-starves_example =
    delays-starves 1000 13 14 12 11 four (omega arith)
      (λ j below. ground (arith, below), refl, refl, (refl, (refl, (refl, (refl, tt))))) refl refl
      refl (omega arith)

-- The current task is delayed by two ticks; the next one runs, and delays itself by one.
abbrev slept : Scheduler
slept = record three {
  next_unblock_time = 7;
  delayed_task_list = record { task = 11; wakeup_time = 7 } ∷ [];
  task_lists = λ p. if p == 2 then 12 ∷ 13 ∷ [] else lists p;
  status = λ t. if t == 11 then TaskState.blocked else three.status t;
}

task_delay-slept : task_delay 2 three ≡ some slept
unfolding task_delay checked_add add_to_delayed_list remove_from_ready_list remove_task
    insert_delayed
task_delay-slept = refl

abbrev switched : Scheduler
switched = context_switch 13 2 slept

task_switch-switched : task_switch slept ≡ some switched
unfolding task_switch switch_from peek_next
task_switch-switched = refl

asleep : (p : ℕ) → has 11 ((remove_from_ready_list 11 three).task_lists p) ≡ false
unfolding remove_from_ready_list remove_task
asleep p = ground arith

task_delay-wakes_on_time_example :
    ((p : ℕ) → has 11 ((process_tick switched).task_lists p) ≡ false)
    × (sleeps 11 7 (process_tick switched).delayed_task_list ≡ true)
    × (has 11 ((process_tick (process_tick switched)).task_lists 2) ≡ true)
task_delay-wakes_on_time_example =
    task_delay-wakes_on_time 2 1 three slept (process_tick switched) tt refl asleep task_delay-slept
      (tick (switch start task_switch-switched)) (omega arith)
