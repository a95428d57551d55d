-- ===== src/Events/Rerun.antt =====
-- A failure in the loop of the setter of event bits (src/event_group.rs).
use Prim.Native.Nat.{bit_and, bit_or}
use mathlib.Core.List.{append-nil, append_assoc}
use int_os.Base.{
  or-byte, zero, suc, sym, ap, ◌∙◌, Bool-cases, inl, inr, if◌then◌else◌, ltb, ℕ, ◌-◌, ◌<◌, ◌≡◌,
  refl, arith, Bool, true, false, [], ◌∷◌, not, ◌==◌, usize_mod, and-bit_24, or_again, zero-or,
  and-all, List, length, ◌+◌, ◌++◌,
}
use int_os.Events.{
  EventGroup, block_item_val, set_event_bits, clear_event_bits, set_event_group_bits, scan, collect,
  event_bits_mask, clear_events_on_exit_bit, Waiter, get_event_bits, scan_until, set_until, wake,
  unblocks, unblocked_due_to_bit_set,
}
use int_os.Events.Words.{
  block_item_val-sum, block_item_val-bits, unblocks-wait_condition_ok, get_event_bits-small,
}
use int_os.Events.Woken.{Request, block, is_met, with_bits, with_bits-small}

clear_bit :
    (bits : ℕ) (for_all : Bool)
    → bits < 16777216
    → not (bit_and (block_item_val bits true for_all) clear_events_on_exit_bit == 0) ≡ true
clear_bit bits true h =
    let s = block_item_val-sum bits true true h in
    let e = and-bit_24 (block_item_val bits true true) in ground (arith, s, e, h)
clear_bit bits false h =
    let s = block_item_val-sum bits true false h in
    let e = and-bit_24 (block_item_val bits true false) in ground (arith, s, e, h)

collect-block :
    (r : Request)
    → r.clear_on_exit ≡ true
    → r.bits_to_wait_for < 16777216
    → collect (block r).opaque 0 ≡ r.bits_to_wait_for
unfolding collect
collect-block r clear h =
    rw
      (
        clear,
        clear_bit r.bits_to_wait_for r.for_all h,
        block_item_val-bits r.bits_to_wait_for true r.for_all h,
      )
      (zero-or r.bits_to_wait_for)

-- The word of a task that was woken has no flag to clear bits.
woken_keeps :
    (bits bits_set : ℕ) (w : Waiter)
    → bits < 16777216
    → w.opaque ≡ bit_or bits unblocked_due_to_bit_set
    → (scan bits_set 0 (w ∷ [])).bits_to_clear ≡ 0
unfolding scan collect
woken_keeps bits bits_set w h e =
    let no_clear : not (bit_and w.opaque clear_events_on_exit_bit == 0) ≡ false =
      ground (arith, and-bit_24 w.opaque, e, or-byte bits 2 h, h) in
    elim (Bool-cases (unblocks bits_set w.opaque)) [
      | inl woken ↦ rw (woken, no_clear) refl
      | inr stays ↦ rw stays refl
    ]

-- The bits behind the setter that runs again, with nothing to clear.
rerun_keeps :
    (bits_to_set : ℕ) (eg eg' : EventGroup)
    → eg.event_bits < 16777216
    → eg'.event_bits ≡ (with_bits bits_to_set eg).event_bits
    → (scan (get_event_bits (with_bits bits_to_set eg')) 0 eg'.waiting_tasks).bits_to_clear ≡ 0
    → (set_event_group_bits bits_to_set eg').1.event_bits ≡ (with_bits bits_to_set eg).event_bits
unfolding set_event_group_bits clear_event_bits set_event_bits
rerun_keeps bits_to_set eg eg' h e none_cleared =
    rw (none_cleared, e, or_again eg.event_bits (bit_and bits_to_set event_bits_mask))
      (and-all (with_bits bits_to_set eg).event_bits
        (omega (arith, with_bits-small bits_to_set eg h)))

-- The changes of the setter end in what it leaves.
scan_until-all :
    (k bits_set to_clear : ℕ) (kept : List Waiter) (eg : EventGroup) (ws : List Waiter)
    → length ws + length ws < k
    → scan_until k bits_set to_clear kept eg ws
      ≡ clear_event_bits
          (scan bits_set to_clear ws).bits_to_clear
          (record eg { waiting_tasks = kept ++ (scan bits_set to_clear ws).kept })
unfolding scan_until scan clear_event_bits
scan_until-all zero bits_set to_clear kept eg ws h = absurd (omega (arith, h))
scan_until-all (suc k) bits_set to_clear kept eg [] h =
    ap (λ l. clear_event_bits to_clear (record eg { waiting_tasks = l })) (sym (append-nil kept))
scan_until-all (suc zero) bits_set to_clear kept eg (w ∷ ws) h = absurd (omega (arith, h))
scan_until-all (suc (suc k)) bits_set to_clear kept eg (w ∷ ws) h =
    elim (Bool-cases (unblocks bits_set w.opaque)) [
      | inl woken ↦
          rw woken
            (scan_until-all k bits_set (collect w.opaque to_clear) kept eg ws (omega (arith, h)))
      | inr stays ↦ rw stays (
          scan_until-all (suc (suc k)) bits_set to_clear (kept ++ (w ∷ [])) eg ws (omega (arith, h))
          ∙ ap
              (λ l.
                clear_event_bits (scan bits_set to_clear ws).bits_to_clear
                  (record eg { waiting_tasks = l }))
              (append_assoc kept (w ∷ []) (scan bits_set to_clear ws).kept))
    ]

-- One task waits, to clear its bits on exit, and the new bits meet its condition.
module _ (bits_to_set : ℕ) (eg : EventGroup) (r : Request)
    (waiting : eg.waiting_tasks ≡ block r ∷ []) (small : eg.event_bits < 16777216)
    (few : r.bits_to_wait_for < 16777216) (clears : r.clear_on_exit ≡ true)
    (met : is_met (with_bits bits_to_set eg) r ≡ true) where
  abbrev eg' : EventGroup
  eg' = with_bits bits_to_set eg

  abbrev bits_set : ℕ
  bits_set = get_event_bits eg'

  abbrev cleared : ℕ
  cleared = bit_and eg'.event_bits (usize_mod - 1 - r.bits_to_wait_for)

  wakes : unblocks bits_set (block r).opaque ≡ true
  wakes =
      unblocks-wait_condition_ok r.bits_to_wait_for r.clear_on_exit r.for_all eg' few
        (with_bits-small bits_to_set eg small)
      ∙ met

  whole : (set_event_group_bits bits_to_set eg).1.event_bits ≡ cleared
  unfolding set_event_group_bits scan clear_event_bits set_event_bits
  whole = rw (waiting, wakes, collect-block r clears few) refl

  set_twice : with_bits bits_to_set eg' ≡ eg'
  unfolding set_event_bits
  set_twice =
      ap (λ bits. record eg { event_bits = bits })
        (or_again eg.event_bits (bit_and bits_to_set event_bits_mask))

  again : (set_event_group_bits bits_to_set eg').1.event_bits ≡ cleared
  unfolding set_event_group_bits
  again =
      ap
        (λ g.
          (clear_event_bits (scan (get_event_bits g) 0 g.waiting_tasks).bits_to_clear (record g {
            waiting_tasks = (scan (get_event_bits g) 0 g.waiting_tasks).kept;
          })).event_bits)
        set_twice
      ∙ whole

  marked : set_until 2 bits_to_set eg ≡ record eg' { waiting_tasks = wake bits_set (block r) ∷ [] }
  unfolding set_until scan_until set_event_bits
  marked = rw (waiting, wakes) refl

  moved : set_until 3 bits_to_set eg ≡ record eg' { waiting_tasks = [] }
  unfolding set_until scan_until set_event_bits
  moved = rw (waiting, wakes) refl

  bits_set-small : bits_set < 16777216
  bits_set-small =
      let below = with_bits-small bits_to_set eg small in
      omega (arith, get_event_bits-small eg' below, below)

  nothing_left :
      (scan
        (get_event_bits (with_bits bits_to_set (record eg' { waiting_tasks = [] })))
        0
        []).bits_to_clear
      ≡ 0
  unfolding scan
  nothing_left = refl

  cut :
      (k : ℕ)
      → k < 4
      → (set_event_group_bits bits_to_set (set_until k bits_to_set eg)).1.event_bits
        ≡ (if ltb k 2 then cleared else eg'.event_bits)
  unfolding set_until
  cut zero h = whole
  cut (suc zero) h = again
  cut (suc (suc zero)) h =
      ap (λ g. (set_event_group_bits bits_to_set g).1.event_bits) marked
      ∙ rerun_keeps bits_to_set eg (record eg' { waiting_tasks = wake bits_set (block r) ∷ [] })
          small refl (woken_keeps bits_set _ (wake bits_set (block r)) bits_set-small refl)
  cut (suc (suc (suc zero))) h =
      ap (λ g. (set_event_group_bits bits_to_set g).1.event_bits) moved
      ∙ rerun_keeps bits_to_set eg (record eg' { waiting_tasks = [] }) small refl nothing_left
  cut (suc (suc (suc (suc k)))) h = absurd (omega (arith, h))

  -- One task waits, to clear its bits on exit, and the new bits meet its condition. The setter clears
  -- these bits, as the last of its four changes. If the power fails behind one of the others, it runs
  -- again: in front of the word in the item of the task it then leaves the same bits, but behind it the
  -- bits to clear are lost, and it clears none.
  pub set-failure-keeps_bits :
      (k : ℕ)
      → k < 4
      → (set_until 4 bits_to_set eg ≡ (set_event_group_bits bits_to_set eg).1)
        × ((set_event_group_bits bits_to_set eg).1.event_bits
            ≡ bit_and (with_bits bits_to_set eg).event_bits (usize_mod - 1 - r.bits_to_wait_for))
        × ((set_event_group_bits bits_to_set (set_until k bits_to_set eg)).1.event_bits ≡ (
            if ltb k 2
            then (set_event_group_bits bits_to_set eg).1.event_bits
            else (with_bits bits_to_set eg).event_bits))
  unfolding set_until set_event_group_bits
  set-failure-keeps_bits k h = (
    scan_until-all 3 bits_set 0 [] eg' eg.waiting_tasks (rw waiting (omega arith)),
    whole,
    cut k h ∙ ap (λ b. if ltb k 2 then b else eg'.event_bits) (sym whole),
  )
