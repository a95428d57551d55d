-- ===== src/Events/Meeting.antt =====
-- Tasks that meet by their bits (src/event_group.rs, `sync_event_group_bits`).
use Prim.Native.Nat.{bit_and, bit_or}
use int_os.Base.{
  ℕ, ◌<◌, ◌≡◌, refl, ap, ◌∙◌, arith, true, List, [], ◌∷◌, map, not, ◌==◌, and-below_byte, or-byte,
  or-bit_26,
}
use int_os.OpLog.{TaskId}
use int_os.Events.{
  EventGroup, Waiter, ok, wake, sync_begin, sync_item_val, set_event_group_bits, get_event_bits,
  set_event_bits, clear_event_bits, wait_condition_ok, block_item_val, clear_events_on_exit_bit,
}
use int_os.Events.Words.{block_item_val-sum, get_event_bits-small}
use int_os.Events.Woken.{
  Request, block, is_met, with_bits, filter, Small, set_event_group_bits-wakes, with_bits-small,
}

abbrev request : ℕ → TaskId → Request
request bits t = record { task = t; bits_to_wait_for = bits; clear_on_exit = true; for_all = true }

-- The item of a task that has come to the meeting before.
abbrev pub arrived : ℕ → TaskId → Waiter
arrived bits t = record { task = t; opaque = sync_item_val bits }

sync_item_val-block :
    (bits : ℕ) → bits < 16777216 → sync_item_val bits ≡ block_item_val bits true true
unfolding sync_item_val
sync_item_val-block bits h =
    let c = or-byte bits 1 h in
    or-bit_26 (bit_or bits clear_events_on_exit_bit) (omega (arith, c, h))
    ∙ omega (arith, c, block_item_val-sum bits true true h)

map-arrived :
    (bits : ℕ) (ts : List TaskId)
    → bits < 16777216
    → map (arrived bits) ts ≡ map block (map (request bits) ts)
map-arrived bits [] h = refl
map-arrived bits (t ∷ ts) h = rw (sync_item_val-block bits h, map-arrived bits ts h) refl

requests-Small : (bits : ℕ) (ts : List TaskId) → bits < 16777216 → Small (map (request bits) ts)
requests-Small bits [] h = tt
requests-Small bits (t ∷ ts) h = (h, requests-Small bits ts h)

module _ (eg : EventGroup) (bits : ℕ) where
  filter-met :
      (ts : List TaskId)
      → wait_condition_ok bits true eg ≡ true
      → filter (λ r. is_met eg r) (map (request bits) ts) ≡ map (request bits) ts
  filter-met [] met = refl
  filter-met (t ∷ ts) met = rw met (ap (λ l. request bits t ∷ l) (filter-met ts met))

  filter-unmet :
      (ts : List TaskId)
      → wait_condition_ok bits true eg ≡ true
      → filter (λ r. not (is_met eg r)) (map (request bits) ts) ≡ []
  filter-unmet [] met = refl
  filter-unmet (t ∷ ts) met = rw met (filter-unmet ts met)

map-woken :
    (bits bits_set : ℕ) (ts : List TaskId)
    → bits < 16777216
    → map (λ r. wake bits_set (block r)) (map (request bits) ts)
      ≡ map (λ t. wake bits_set (arrived bits t)) ts
map-woken bits bits_set [] h = refl
map-woken bits bits_set (t ∷ ts) h =
    ap (λ l. wake bits_set (arrived bits t) ∷ l) (map-woken bits bits_set ts h)

module _ (bits_to_set bits : ℕ) (eg : EventGroup) (h : eg.event_bits < 16777216)
    (set : bits_to_set < 16777216)
    (last : bit_and (bit_or eg.event_bits bits_to_set) bits ≡ bits) where
  all_bits : (with_bits bits_to_set eg).event_bits ≡ bit_or eg.event_bits bits_to_set
  unfolding set_event_bits
  all_bits = ap (bit_or eg.event_bits) (and-below_byte bits_to_set ∙ omega (arith, set))

  get-all_bits : get_event_bits (with_bits bits_to_set eg) ≡ bit_or eg.event_bits bits_to_set
  get-all_bits =
      get_event_bits-small (with_bits bits_to_set eg) (with_bits-small bits_to_set eg h) ∙ all_bits

  all_met : wait_condition_ok bits true (with_bits bits_to_set eg) ≡ true
  unfolding wait_condition_ok
  all_met = let e : (bits == bits) ≡ true = ground arith in rw (all_bits, last) e

  sync_begin-last :
      (wait_ticks now : ℕ)
      → sync_begin bits_to_set bits wait_ticks now eg ≡ (
        ok (bit_or eg.event_bits bits_to_set),
        (set_event_group_bits bits_to_set eg).0,
        clear_event_bits bits (set_event_group_bits bits_to_set eg).1,
      )
  unfolding sync_begin
  sync_begin-last wait_ticks now =
      let e : (bits == bits) ≡ true = ground arith in rw (get_event_bits-small eg h, last, e) refl

-- Tasks wait in a synchronisation for the same bits, and another task sets the last of them: it does
-- not wait, and gets all bits; the setter wakes every one of the tasks with all bits, and none stays.
-- The bits of the group, and those that are set and waited for, are below the control byte.
pub sync-meets :
    (bits_to_set bits wait_ticks now : ℕ) (eg : EventGroup) (ts : List TaskId)
    → eg.waiting_tasks ≡ map (arrived bits) ts
    → eg.event_bits < 16777216
    → bits_to_set < 16777216
    → bits < 16777216
    → bit_and (bit_or eg.event_bits bits_to_set) bits ≡ bits
    → ((sync_begin bits_to_set bits wait_ticks now eg).0 ≡ ok (bit_or eg.event_bits bits_to_set))
      × ((sync_begin bits_to_set bits wait_ticks now eg).1
          ≡ map (λ t. wake (bit_or eg.event_bits bits_to_set) (arrived bits t)) ts)
      × ((sync_begin bits_to_set bits wait_ticks now eg).2.waiting_tasks ≡ [])
unfolding clear_event_bits
sync-meets bits_to_set bits wait_ticks now eg ts waiting h set small last =
    let s = sync_begin-last bits_to_set bits eg h set last wait_ticks now in
    let w =
      set_event_group_bits-wakes bits_to_set eg (map (request bits) ts)
        (waiting ∙ map-arrived bits ts small) h (requests-Small bits ts small) in
    let met = all_met bits_to_set bits eg h set last in
    let eg' = with_bits bits_to_set eg in
    (
      ap (λ x. x.0) s,
      ap (λ x. x.1) s
          ∙ w.0
          ∙ ap (map (λ r. wake (get_event_bits eg') (block r))) (filter-met eg' bits ts met)
          ∙ map-woken bits (get_event_bits eg') ts small
          ∙ ap (λ b. map (λ t. wake b (arrived bits t)) ts)
              (get-all_bits bits_to_set bits eg h set last),
      ap (λ x. x.2.waiting_tasks) s ∙ w.1 ∙ ap (map block) (filter-unmet eg' bits ts met),
    )
