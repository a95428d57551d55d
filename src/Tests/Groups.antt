-- ===== src/Tests/Groups.antt =====
-- An event group with two waiting tasks (src/event_group.rs).
use Prim.Native.Nat.{bit_and, bit_or}
use int_os.Base.{◌-◌, ◌≡◌, refl, arith, true, false, not, [], ◌∷◌, map, usize_mod}
use int_os.Events.{
  sync_begin, EventGroup, ok, wait_begin, wait_end, block_item_val, get_event_bits, set_event_bits,
  clear_event_bits, set_event_group_bits, set_until, wait_condition_ok, wake, scan, unblocks,
  collect,
}
use int_os.Events.Words.{unblocks-wait_condition_ok}
use int_os.Events.Woken.{
  Request, block, is_met, with_bits, filter, set_event_group_bits-wakes, woken-wait_returns,
}
use int_os.Events.Meeting.{arrived, sync-meets}
use int_os.Events.Rerun.{set-failure-keeps_bits}

-- One task waits for both of two bits and clears them, the other for one more.
abbrev both_bits : Request
both_bits = record { task = 5; bits_to_wait_for = 3; clear_on_exit = true; for_all = true }

abbrev third_bit : Request
third_bit = record { task = 6; bits_to_wait_for = 4; clear_on_exit = false; for_all = false }

abbrev group : EventGroup
group = record { event_bits = 1; waiting_tasks = block both_bits ∷ block third_bit ∷ [] }

-- The second bit wakes the first task.
woken_first : set_event_group_bits 2 group ≡ (
  wake 3 (block both_bits) ∷ [],
  record { event_bits = 0; waiting_tasks = block third_bit ∷ [] },
)
unfolding set_event_group_bits scan unblocks collect set_event_bits clear_event_bits get_event_bits
    block_item_val
woken_first = refl

unblocks-wait_condition_ok_example :
    unblocks (get_event_bits group) (block_item_val 3 true true) ≡ wait_condition_ok 3 true group
unblocks-wait_condition_ok_example =
    unblocks-wait_condition_ok 3 true true group (omega arith) (omega arith)

set_event_group_bits-wakes_example :
    ((set_event_group_bits 2 group).0
      ≡ map
          (λ r. wake (get_event_bits (with_bits 2 group)) (block r))
          (filter (λ r. is_met (with_bits 2 group) r) (both_bits ∷ third_bit ∷ [])))
    × ((set_event_group_bits 2 group).1.waiting_tasks
        ≡ map block (filter (λ r. not (is_met (with_bits 2 group) r)) (both_bits ∷ third_bit ∷ [])))
set_event_group_bits-wakes_example =
    set_event_group_bits-wakes 2 group (both_bits ∷ third_bit ∷ []) refl (omega arith)
      (omega arith, (omega arith, tt))

woken-wait_returns_example :
    (wait_end 3 true (wake 3 (block both_bits)).opaque group ≡ (ok 3, group))
    × (wait_begin 3 true true 10 100 (wake 3 (block both_bits)).opaque group ≡ (ok 3, group))
woken-wait_returns_example = woken-wait_returns both_bits 3 10 100 group (omega arith)

abbrev alone : EventGroup
alone = record { event_bits = 1; waiting_tasks = block both_bits ∷ [] }

met : is_met (with_bits 2 alone) both_bits ≡ true
unfolding wait_condition_ok set_event_bits
met = refl

-- The power fails behind the move of the task.
set-failure-keeps_bits_example :
    (set_until 4 2 alone ≡ (set_event_group_bits 2 alone).1)
    × ((set_event_group_bits 2 alone).1.event_bits
        ≡ bit_and (with_bits 2 alone).event_bits (usize_mod - 1 - 3))
    × ((set_event_group_bits 2 (set_until 3 2 alone)).1.event_bits ≡ (with_bits 2 alone).event_bits)
set-failure-keeps_bits_example =
    set-failure-keeps_bits 2 alone both_bits refl (omega arith) (omega arith) refl met 3
      (omega arith)

-- Tasks 5 and 6 have come to a meeting of three, with the lower two bits.
abbrev meeting : EventGroup
meeting = record { event_bits = 3; waiting_tasks = arrived 7 5 ∷ arrived 7 6 ∷ [] }

sync-meets_example :
    ((sync_begin 4 7 10 100 meeting).0 ≡ ok (bit_or 3 4))
    × ((sync_begin 4 7 10 100 meeting).1 ≡ map (λ t. wake (bit_or 3 4) (arrived 7 t)) (5 ∷ 6 ∷ []))
    × ((sync_begin 4 7 10 100 meeting).2.waiting_tasks ≡ [])
sync-meets_example =
    sync-meets 4 7 10 100 meeting (5 ∷ 6 ∷ []) refl (omega arith) (omega arith) (omega arith) refl
