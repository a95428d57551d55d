-- ===== src/Events/Words.antt =====
-- The words of the waiting tasks (src/event_group.rs).
use Prim.Native.Nat.{bit_and, bit_or}
use int_os.Base.{
  ℕ, ◌+◌, ◌*◌, ◌<◌, ◌≡◌, ◌∙◌, arith, Bool, true, false, and-below_byte, or-byte, not, ◌==◌,
  and_comm, ◌/◌, refl, ◌%◌, and-bit_26, and-bit_25,
}
use int_os.Events.{
  block_item_val, event_bits_mask, get_event_bits, unblocks, wait_for_all_bits, EventGroup,
  wait_condition_ok, unblocked_due_to_bit_set,
}

abbrev pub control : Bool → Bool → ℕ
control true true = 5
control true false = 1
control false true = 4
control false false = 0

pub block_item_val-sum :
    (bits : ℕ) (clear for_all : Bool)
    → bits < 16777216
    → block_item_val bits clear for_all ≡ bits + control clear for_all * 16777216
unfolding block_item_val
block_item_val-sum bits true true h = or-byte bits 5 h
block_item_val-sum bits true false h = or-byte bits 1 h
block_item_val-sum bits false true h = or-byte bits 4 h
block_item_val-sum bits false false h = or-byte bits 0 h

pub block_item_val-bits :
    (bits : ℕ) (clear for_all : Bool)
    → bits < 16777216
    → bit_and (block_item_val bits clear for_all) event_bits_mask ≡ bits
block_item_val-bits bits clear for_all h =
    let s = block_item_val-sum bits clear for_all h in
    and-below_byte (block_item_val bits clear for_all) ∙ omega (arith, s, h)

for_all_bit :
    (bits : ℕ) (clear for_all : Bool)
    → bits < 16777216
    → not (bit_and (block_item_val bits clear for_all) wait_for_all_bits == 0) ≡ for_all
for_all_bit bits clear for_all h =
    let e = and-bit_26 (block_item_val bits clear for_all) in
    cases clear for_all (block_item_val-sum bits clear for_all h) e
  where
    cases :
        (c f : Bool)
        → block_item_val bits clear for_all ≡ bits + control c f * 16777216
        → bit_and (block_item_val bits clear for_all) wait_for_all_bits
          ≡ block_item_val bits clear for_all / 67108864 % 2 * 67108864
        → not (bit_and (block_item_val bits clear for_all) wait_for_all_bits == 0) ≡ f
    cases true true s e = ground (arith, s, e, h)
    cases true false s e = ground (arith, s, e, h)
    cases false true s e = ground (arith, s, e, h)
    cases false false s e = ground (arith, s, e, h)

pub get_event_bits-small :
    (eg : EventGroup) → eg.event_bits < 16777216 → get_event_bits eg ≡ eg.event_bits
unfolding get_event_bits
get_event_bits-small eg h = and-below_byte eg.event_bits ∙ omega (arith, h)

-- The setter wakes a task, by the word in its item, exactly when the condition that the task waits for
-- holds in the group. The bits that it waits for, and those of the group, are below the control byte.
pub unblocks-wait_condition_ok :
    (bits : ℕ) (clear for_all : Bool) (eg : EventGroup)
    → bits < 16777216
    → eg.event_bits < 16777216
    → unblocks (get_event_bits eg) (block_item_val bits clear for_all)
      ≡ wait_condition_ok bits for_all eg
unfolding unblocks wait_condition_ok
unblocks-wait_condition_ok bits clear for_all eg h small =
    rw
      (
        for_all_bit bits clear for_all h,
        block_item_val-bits bits clear for_all h,
        get_event_bits-small eg small,
        and_comm bits eg.event_bits,
      )
      refl

-- The word of a task that the setter has woken.
pub woken_bits :
    (bits : ℕ)
    → bits < 16777216
    → bit_and (bit_or bits unblocked_due_to_bit_set) event_bits_mask ≡ bits
woken_bits bits h =
    and-below_byte (bit_or bits unblocked_due_to_bit_set) ∙ omega (arith, or-byte bits 2 h, h)

pub woken_flag :
    (bits : ℕ)
    → bits < 16777216
    → (bit_and (bit_or bits unblocked_due_to_bit_set) unblocked_due_to_bit_set == 0) ≡ false
woken_flag bits h =
    let e = and-bit_25 (bit_or bits unblocked_due_to_bit_set) in
    let o = or-byte bits 2 h in ground (arith, e, o, h)
