-- ===== src/Queue/Ring.antt =====
-- The queue as the list of its items (src/queue.rs).
use int_os.Base.{
  length, usize_mod, ◌==◌, if◌then◌else◌, Bool-cases, ==→eq, length-append, ℕ, suc, ◌+◌, ◌*◌, ◌%◌,
  ◌≤◌, ◌<◌, ◌≡◌, sym, ap, ◌∙◌, ◌⊎◌, inl, inr, List, [], ◌∷◌, ◌++◌, arith, some, false, refl,
}
use int_os.Queue.Slots.{wrap, slots_apart, advance-slot, slot_before}
use int_os.Queue.{new, Queue, advance, push_back, ok, err, QueueErr, is_full}
use int_os.Journal.{Bytes, copy_nonoverlapping}
use int_os.Queue.Holds.{IsQueue, Filled-append, Filled-frame}
use int_os.Journal.Copy.{copy_out, copy_in}
use mathlib.Core.Path.{subst}

-- The slot behind a slot of the ring.
slot_after :
    (len r k : ℕ)
    → r < len
    → k < len
    → (if suc (wrap len (r + k)) == len then 0 else suc (wrap len (r + k))) ≡ wrap len (r + suc k)
slot_after len r k hr hk = ground arith

module _ {q : Queue} {xs : List Bytes} (is : IsQueue q xs) (item : Bytes)
    (room : length xs < q.length) where
  abbrev at : ℕ
  at = wrap q.length (is.slot + length xs)

  in_ring : at < q.length
  in_ring = ground (arith, is.in_ring)

  abbrev pushed : Queue
  pushed = record q {
    buffer = copy_nonoverlapping q.item_size item 0 q.buffer q.write_pos;
    write_pos = advance q.tail q.write_pos q.item_size;
    items_enqueued = (q.items_enqueued + 1) % usize_mod;
  }

  written : (b : ℕ) → b < q.item_size → pushed.buffer (at * q.item_size + b) ≡ item b
  written b lt =
      ap (λ p. copy_nonoverlapping q.item_size item 0 q.buffer p (at * q.item_size + b)) is.writes
      ∙ copy_in q.item_size item 0 q.buffer (at * q.item_size) b lt
      ∙ ap item (omega arith)

  kept :
      (j b : ℕ)
      → is.slot ≤ j
      → j < is.slot + length xs
      → b < q.item_size
      → pushed.buffer (wrap q.length j * q.item_size + b)
        ≡ q.buffer (wrap q.length j * q.item_size + b)
  kept j b lo hi lt = copy_out q.item_size item 0 q.buffer q.write_pos _ (
      subst
        (λ p.
          (wrap q.length j * q.item_size + b < p)
          ⊎ (p + q.item_size ≤ wrap q.length j * q.item_size + b))
        (sym is.writes)
        (slots_apart q.item_size (wrap q.length j) at b (λ e. ground (arith, is.in_ring, room, e))
          lt))

  moved : pushed.write_pos ≡ wrap q.length (is.slot + suc (length xs)) * q.item_size
  moved =
      ap (λ t. advance t q.write_pos q.item_size) is.end_of
      ∙ ap (λ p. advance (q.item_size * q.length) p q.item_size) is.writes
      ∙ advance-slot q.item_size q.length at is.sized in_ring is.small
      ∙ ap (λ s. s * q.item_size) (slot_after q.length is.slot (length xs) is.in_ring room)

  pushed-IsQueue : IsQueue pushed (xs ++ (item ∷ []))
  pushed-IsQueue = record {
    slot = is.slot;
    in_ring = is.in_ring;
    sized = is.sized;
    small = is.small;
    end_of = is.end_of;
    reads = is.reads;
    count = omega (
      arith,
      is.count,
      is.small,
      length-append xs (item ∷ []),
      slot_before q.length 0 q.item_size is.sized,
    );
    bound = omega (arith, length-append xs (item ∷ []));
    writes =
        moved
        ∙ ap (λ k. wrap q.length (is.slot + k) * q.item_size)
            (omega (arith, length-append xs (item ∷ [])));
    filled =
        Filled-append q.item_size q.length pushed.buffer is.slot xs item
          (Filled-frame q.item_size q.length q.buffer pushed.buffer is.slot xs kept is.filled)
          written;
  }

-- A push at the back of a queue that is not full adds the item behind the others, and a full queue
-- refuses it.
pub push_back-refines :
    (q : Queue) (xs : List Bytes) (item : Bytes)
    → IsQueue q xs
    → ((length xs < q.length)
        × (q' : Queue) × (push_back item q ≡ ok q')
        × IsQueue q' (xs ++ (item ∷ [])))
      ⊎ ((length xs ≡ q.length) × (push_back item q ≡ err QueueErr.queue_full))
unfolding push_back advance copy_nonoverlapping
push_back-refines q xs item is = elim (Bool-cases (is_full q)) [
  | inl full ↦ inr (sym is.count ∙ ==→eq _ _ full, rw full)
  | inr room ↦
      let free : length xs < q.length = ground (arith, is.count, is.bound) in
      inl (free, pushed is item free, rw room, pushed-IsQueue is item free)
]

-- A new queue with room for items is empty.
pub new-IsQueue :
    (length item_size : ℕ) (buffer : Bytes)
    → 0 < length
    → 0 < item_size
    → item_size * length < usize_mod
    → (q : Queue) × (new length item_size buffer ≡ some q) × IsQueue q []
unfolding new
new-IsQueue len item_size buffer room sized small = (
  record {
    length = len;
    item_size = item_size;
    buffer = buffer;
    read_pos = 0;
    write_pos = 0;
    tail = item_size * len % usize_mod;
    items_enqueued = 0;
  },
  rw (occupied len room) refl,
  record {
    slot = 0;
    in_ring = room;
    sized = sized;
    small = small;
    end_of = omega arith;
    reads = omega arith;
    count = refl;
    bound = omega arith;
    writes = start (wrap len (0 + 0)) (ground (arith, room));
    filled = tt;
  },
)
  where
    occupied : (n : ℕ) → 0 < n → (n == 0) ≡ false
    occupied n h = ground arith

    start : (w : ℕ) → w ≡ 0 → 0 ≡ w * item_size
    start w e = rw e (omega arith)
