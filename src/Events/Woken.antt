-- ===== src/Events/Woken.antt =====
-- What the setter of event bits does to the waiting tasks (src/event_group.rs).
use Prim.Native.Nat.{bit_and}
use int_os.Base.{
  ℕ, ◌<◌, ◌≡◌, inl, inr, refl, ap, arith, Bool, List, [], ◌∷◌, map, not, if◌then◌else◌, Bool-cases,
  and-below_byte, or-below_byte,
}
use int_os.OpLog.{TaskId}
use int_os.Events.{
  collect, EventGroup, Waiter, Scan, ok, wait_begin, wait_end, block_item_val, event_bits_mask,
  wait_condition_ok, get_event_bits, set_event_bits, clear_event_bits, set_event_group_bits, scan,
  collect, wake,
}
use int_os.Events.Words.{unblocks-wait_condition_ok, woken_bits, woken_flag}

-- What a task waits for.
pub record Request : Type 0 where
  pub task : TaskId
  pub bits_to_wait_for : ℕ
  pub clear_on_exit : Bool
  pub for_all : Bool

abbrev pub block : Request → Waiter
block r = record {
  task = r.task;
  opaque = block_item_val r.bits_to_wait_for r.clear_on_exit r.for_all;
}

abbrev pub is_met : EventGroup → Request → Bool
is_met eg r = wait_condition_ok r.bits_to_wait_for r.for_all eg

abbrev pub filter : (Request → Bool) → List Request → List Request
filter p [] = []
filter p (r ∷ rs) = let rest = filter p rs in if p r then r ∷ rest else rest

abbrev pub Small : List Request → Type 0
Small [] = Unit
Small (r ∷ rs) = (r.bits_to_wait_for < 16777216) × Small rs

-- The group in the loop of the setter.
abbrev pub with_bits : ℕ → EventGroup → EventGroup
with_bits bits_to_set eg = set_event_bits (bit_and bits_to_set event_bits_mask) eg

abbrev Split : EventGroup → List Request → Scan → Type 0
Split eg rs s =
    (s.woken ≡ map (λ r. wake (get_event_bits eg) (block r)) (filter (λ r. is_met eg r) rs))
    × (s.kept ≡ map block (filter (λ r. not (is_met eg r)) rs))

scan-Split :
    (eg : EventGroup) (rs : List Request) (to_clear : ℕ)
    → eg.event_bits < 16777216
    → Small rs
    → Split eg rs (scan (get_event_bits eg) to_clear (map block rs))
unfolding scan
scan-Split eg [] to_clear h s = (refl, refl)
scan-Split eg (r ∷ rs) to_clear h s =
    let u = unblocks-wait_condition_ok r.bits_to_wait_for r.clear_on_exit r.for_all eg s.0 h in
    elim (Bool-cases (is_met eg r)) [
      | inl met ↦
          let ih = scan-Split eg rs (collect (block r).opaque to_clear) h s.1 in
          rw (u, met) (ap (λ l. wake (get_event_bits eg) (block r) ∷ l) ih.0, ih.1)
      | inr unmet ↦
          let ih = scan-Split eg rs to_clear h s.1 in
          rw (u, unmet) (ih.0, ap (λ l. block r ∷ l) ih.1)
    ]

pub with_bits-small :
    (bits_to_set : ℕ) (eg : EventGroup)
    → eg.event_bits < 16777216
    → (with_bits bits_to_set eg).event_bits < 16777216
unfolding set_event_bits
with_bits-small bits_to_set eg h =
    or-below_byte eg.event_bits (bit_and bits_to_set event_bits_mask) h
      (omega (arith, and-below_byte bits_to_set))

-- The setter wakes exactly the waiting tasks whose condition holds with the new bits, in their order,
-- each with the new bits and the flag in its item, and the others stay, in their order. The bits that
-- the tasks wait for, and those of the group, are below the control byte.
pub set_event_group_bits-wakes :
    (bits_to_set : ℕ) (eg : EventGroup) (rs : List Request)
    → eg.waiting_tasks ≡ map block rs
    → eg.event_bits < 16777216
    → Small rs
    → ((set_event_group_bits bits_to_set eg).0
        ≡ map
            (λ r. wake (get_event_bits (with_bits bits_to_set eg)) (block r))
            (filter (λ r. is_met (with_bits bits_to_set eg) r) rs))
      × ((set_event_group_bits bits_to_set eg).1.waiting_tasks
          ≡ map block (filter (λ r. not (is_met (with_bits bits_to_set eg) r)) rs))
unfolding set_event_group_bits set_event_bits clear_event_bits wait_condition_ok
set_event_group_bits-wakes bits_to_set eg rs waiting h s =
    rw waiting (scan-Split (with_bits bits_to_set eg) rs 0 (with_bits-small bits_to_set eg h) s)

-- A task that the setter has woken with some bits gets these from its wait, whatever the group has
-- become: when it goes on, and also when the power fails before it does and it waits once more.
pub woken-wait_returns :
    (r : Request) (bits_set wait_ticks now : ℕ) (eg : EventGroup)
    → bits_set < 16777216
    → (wait_end r.bits_to_wait_for r.for_all (wake bits_set (block r)).opaque eg
        ≡ (ok bits_set, eg))
      × (wait_begin r.bits_to_wait_for r.clear_on_exit r.for_all wait_ticks now
            (wake bits_set (block r)).opaque
            eg
          ≡ (ok bits_set, eg))
unfolding wait_end wait_begin
woken-wait_returns r bits_set wait_ticks now eg h =
    rw (woken_flag bits_set h, woken_bits bits_set h) (refl, refl)
