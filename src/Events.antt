-- ===== src/Events.antt =====
-- The event groups, src/event_group.rs (`EventGroup`, with `opt_list`), on a machine of 32 bits. A
-- waiting task has a word in its item: the bits that it waits for, and in the highest byte what to do
-- with them. The moves of the tasks are list transactions (ListTx); here the setter gives the items
-- of the tasks that it moves to the ready lists, and does not choose to yield. The numbers are those of
-- `usize`.
pub mod Words
pub mod Woken
pub mod Rerun
pub mod Meeting
use Prim.Native.Nat.{bit_and, bit_or}
use int_os.Base.{
  ℕ, zero, suc, ◌+◌, ◌-◌, Bool, true, false, Option, none, some, List, [], ◌∷◌, ◌++◌, ltb, ◌==◌,
  not, if◌then◌else◌, usize_mod,
}
use int_os.OpLog.{TaskId}
use int_os.Semaphore.{checked_add}

abbrev pub clear_events_on_exit_bit : ℕ
clear_events_on_exit_bit = 0x01000000

abbrev pub unblocked_due_to_bit_set : ℕ
unblocked_due_to_bit_set = 0x02000000

abbrev pub wait_for_all_bits : ℕ
wait_for_all_bits = 0x04000000

-- `!EVENT_BITS_CONTROL_BYTES`
abbrev pub event_bits_mask : ℕ
event_bits_mask = usize_mod - 1 - 0xFF000000

pub record Waiter : Type 0 where
  pub task : TaskId
  pub opaque : ℕ

pub record EventGroup : Type 0 where
  pub event_bits : ℕ
  pub waiting_tasks : List Waiter

unfoldable pub get_event_bits : EventGroup → ℕ
get_event_bits eg = bit_and eg.event_bits event_bits_mask

unfoldable pub set_event_bits : ℕ → EventGroup → EventGroup
set_event_bits bits eg = record eg { event_bits = bit_or eg.event_bits bits }

unfoldable pub clear_event_bits : ℕ → EventGroup → EventGroup
clear_event_bits bits eg = record eg { event_bits = bit_and eg.event_bits (usize_mod - 1 - bits) }

unfoldable pub wait_condition_ok : ℕ → Bool → EventGroup → Bool
wait_condition_ok bits_to_wait_for for_all eg =
    if for_all
    then bit_and eg.event_bits bits_to_wait_for == bits_to_wait_for
    else not (bit_and eg.event_bits bits_to_wait_for == 0)

-- The word of a task that waits.
unfoldable pub block_item_val : ℕ → Bool → Bool → ℕ
block_item_val bits_to_wait_for clear_on_exit for_all =
    let cleared = if clear_on_exit then bit_or 0 clear_events_on_exit_bit else 0 in
    bit_or bits_to_wait_for (if for_all then bit_or cleared wait_for_all_bits else cleared)

pub data Outcome : Type 0 where
  ok : ℕ → Outcome
  err : ℕ → Outcome
  -- The task goes to sleep with this word in its item, until this time.
  sleeps : ℕ → ℕ → Outcome
  -- the deadline overflows
  panicked : Outcome

-- `wait_for_event_group_bits` up to the yield: at the time `now`, with the word `bits` in the item.
unfoldable pub wait_begin : ℕ → Bool → Bool → ℕ → ℕ → ℕ → EventGroup → Outcome × EventGroup
unfolding get_event_bits clear_event_bits wait_condition_ok block_item_val checked_add
wait_begin bits_to_wait_for clear_on_exit for_all wait_ticks now bits eg =
    if not (bit_and bits unblocked_due_to_bit_set == 0)
    then (ok (bit_and bits event_bits_mask), eg)
    else if wait_condition_ok bits_to_wait_for for_all eg
    then (
      ok (get_event_bits eg),
      if clear_on_exit then clear_event_bits bits_to_wait_for eg else eg,
    )
    else if ltb 0 wait_ticks
    then elim (checked_add now wait_ticks) [
      | none ↦ (panicked, eg)
      | some wakeup_time ↦
          (sleeps (block_item_val bits_to_wait_for clear_on_exit for_all) wakeup_time, eg)
    ]
    else (ok (get_event_bits eg), eg)

-- The rest of it, when the task comes back with the word `event_bits` in its item.
unfoldable pub wait_end : ℕ → Bool → ℕ → EventGroup → Outcome × EventGroup
unfolding clear_event_bits wait_condition_ok
wait_end bits_to_wait_for for_all event_bits eg =
    let res = bit_and event_bits event_bits_mask in
    if bit_and event_bits unblocked_due_to_bit_set == 0
    then (if wait_condition_ok bits_to_wait_for for_all eg
        then (
          ok res,
          if not (bit_and event_bits clear_events_on_exit_bit == 0)
              then clear_event_bits bits_to_wait_for eg
              else eg,
        )
        else (err res, eg))
    else (ok res, eg)

-- Whether the setter wakes a task with the word `event_bits`.
unfoldable pub unblocks : ℕ → ℕ → Bool
unblocks bits_set event_bits =
    let bits_waiting_for = bit_and event_bits event_bits_mask in
    if not (bit_and event_bits wait_for_all_bits == 0)
    then bit_and bits_waiting_for bits_set == bits_waiting_for
    else not (bit_and bits_waiting_for bits_set == 0)

-- What the loop of the setter does: the items that it wakes, those that stay, and `bits_to_clear`.
pub record Scan : Type 0 where
  pub woken : List Waiter
  pub kept : List Waiter
  pub bits_to_clear : ℕ

unfoldable pub collect : ℕ → ℕ → ℕ
collect event_bits bits_to_clear =
    if not (bit_and event_bits clear_events_on_exit_bit == 0)
    then bit_or bits_to_clear (bit_and event_bits event_bits_mask)
    else bits_to_clear

abbrev pub wake : ℕ → Waiter → Waiter
wake bits_set w = record w { opaque = bit_or bits_set unblocked_due_to_bit_set }

unfoldable pub scan : ℕ → ℕ → List Waiter → Scan
unfolding unblocks collect
scan bits_set bits_to_clear [] = record { woken = []; kept = []; bits_to_clear = bits_to_clear }
scan bits_set bits_to_clear (w ∷ ws) =
    let wakes = scan bits_set (collect w.opaque bits_to_clear) ws in
    let keeps = scan bits_set bits_to_clear ws in
    if unblocks bits_set w.opaque
    then record wakes { woken = wake bits_set w ∷ wakes.woken }
    else record keeps { kept = w ∷ keeps.kept }

-- `set_event_group_bits`: the items of the tasks that it wakes, and the group.
unfoldable pub set_event_group_bits : ℕ → EventGroup → List Waiter × EventGroup
unfolding set_event_bits get_event_bits scan clear_event_bits
set_event_group_bits bits_to_set eg =
    let eg' = set_event_bits (bit_and bits_to_set event_bits_mask) eg in
    let s = scan (get_event_bits eg') 0 eg'.waiting_tasks in
    (s.woken, clear_event_bits s.bits_to_clear (record eg' { waiting_tasks = s.kept }))

-- The group at a power failure behind `k` changes of the loop, with the waiting tasks `kept` behind it:
-- for a task that it wakes, the word in its item and then its move to the ready list; at the end the
-- bits are cleared.
unfoldable pub scan_until : ℕ → ℕ → ℕ → List Waiter → EventGroup → List Waiter → EventGroup
unfolding unblocks collect clear_event_bits
scan_until zero bits_set bits_to_clear kept eg ws = record eg { waiting_tasks = kept ++ ws }
scan_until (suc k) bits_set bits_to_clear kept eg [] =
    clear_event_bits bits_to_clear (record eg { waiting_tasks = kept })
scan_until (suc zero) bits_set bits_to_clear kept eg (w ∷ ws) =
    let keeps = scan_until (suc zero) bits_set bits_to_clear (kept ++ (w ∷ [])) eg ws in
    if unblocks bits_set w.opaque
    then record eg { waiting_tasks = kept ++ (wake bits_set w ∷ ws) }
    else keeps
scan_until (suc (suc k)) bits_set bits_to_clear kept eg (w ∷ ws) =
    let wakes = scan_until k bits_set (collect w.opaque bits_to_clear) kept eg ws in
    let keeps = scan_until (suc (suc k)) bits_set bits_to_clear (kept ++ (w ∷ [])) eg ws in
    if unblocks bits_set w.opaque then wakes else keeps

-- `set_event_group_bits` up to a power failure behind `k` of its changes.
unfoldable pub set_until : ℕ → ℕ → EventGroup → EventGroup
unfolding set_event_bits get_event_bits scan_until
set_until zero bits_to_set eg = eg
set_until (suc k) bits_to_set eg =
    let eg' = set_event_bits (bit_and bits_to_set event_bits_mask) eg in
    scan_until k (get_event_bits eg') 0 [] eg' eg'.waiting_tasks

-- The word of a task that waits in a synchronisation.
unfoldable pub sync_item_val : ℕ → ℕ
sync_item_val bits_to_wait_for =
    bit_or (bit_or bits_to_wait_for clear_events_on_exit_bit) wait_for_all_bits

-- `sync_event_group_bits` up to the yield: also the items of the tasks that it wakes. The rest of it is
-- that of a wait for all bits (`wait_end`).
unfoldable pub sync_begin : ℕ → ℕ → ℕ → ℕ → EventGroup → Outcome × List Waiter × EventGroup
unfolding get_event_bits set_event_group_bits clear_event_bits sync_item_val checked_add
sync_begin bits_to_set bits_to_wait_for wait_ticks now eg =
    let all_bits = bit_or (get_event_bits eg) bits_to_set in
    let s = set_event_group_bits bits_to_set eg in
    if bit_and all_bits bits_to_wait_for == bits_to_wait_for
    then (ok all_bits, s.0, clear_event_bits bits_to_wait_for s.1)
    else if ltb 0 wait_ticks
    then elim (checked_add now wait_ticks) [
      | none ↦ (panicked, s.0, s.1)
      | some wakeup_time ↦ (sleeps (sync_item_val bits_to_wait_for) wakeup_time, s.0, s.1)
    ]
    else (ok (get_event_bits s.1), s.0, s.1)
