-- ===== src/Queue/Front.antt =====
-- The front of the queue (src/queue.rs, `dequeue`, `push_front`).
use int_os.Base.{
  length, usize_mod, ◌==◌, if◌then◌else◌, Bool-cases, ==→eq, ℕ, suc, ◌+◌, ◌-◌, ◌*◌, ◌%◌, ◌≤◌, ◌<◌,
  ◌≡◌, refl, sym, ap, ◌∙◌, ◌⊎◌, inl, inr, false, List, [], ◌∷◌, arith,
}
use int_os.Queue.{is_empty, is_full, back, Queue, dequeue, advance, err, QueueErr, ok, push_front}
use int_os.Journal.{Bytes, copy_nonoverlapping}
use int_os.Queue.Holds.{IsQueue, Filled-same, Filled-frame}
use int_os.Queue.Slots.{wrap, advance-slot, slot_before, slots_apart, back_of}
use int_os.Journal.Copy.{copy_out, copy_in}
use mathlib.Core.Path.{subst}

module _ {q : Queue} {x : Bytes} {xs : List Bytes} (is : IsQueue q (x ∷ xs)) where
  abbrev rest : Queue
  rest = record q {
    read_pos = advance q.tail q.read_pos q.item_size;
    items_enqueued = q.items_enqueued - 1;
  }

  next_slot : (if suc is.slot == q.length then 0 else suc is.slot) ≡ wrap q.length (suc is.slot)
  next_slot = ground (arith, is.in_ring)

  rest-IsQueue : IsQueue rest xs
  rest-IsQueue = record {
    slot = wrap q.length (suc is.slot);
    in_ring = ground (arith, is.in_ring);
    sized = is.sized;
    small = is.small;
    end_of = is.end_of;
    reads =
        ap (λ t. advance t q.read_pos q.item_size) is.end_of
        ∙ ap (λ p. advance (q.item_size * q.length) p q.item_size) is.reads
        ∙ advance-slot q.item_size q.length is.slot is.sized is.in_ring is.small
        ∙ ap (λ s. s * q.item_size) next_slot;
    count = omega (arith, is.count);
    bound = omega (arith, is.bound);
    writes = is.writes ∙ ap (λ s. s * q.item_size) (ground (arith, is.in_ring, is.bound));
    filled =
        Filled-same q.item_size q.length q.buffer (suc is.slot) (wrap q.length (suc is.slot)) xs
          (λ j lt. ground (arith, is.in_ring, is.bound)) is.filled.1;
  }

-- A read of a queue with items gives the bytes of the first and leaves the others, and an empty queue
-- refuses it. The size of the type that is read is the size of the items.
pub dequeue-refines :
    (q : Queue) (ys : List Bytes)
    → IsQueue q ys
    → ((ys ≡ []) × (dequeue q.item_size q ≡ err QueueErr.queue_empty))
      ⊎ ((x : Bytes) × (xs : List Bytes) × (ys ≡ x ∷ xs)
          × (item : Bytes) × (q' : Queue) × (dequeue q.item_size q ≡ ok (item, q'))
          × ((b : ℕ) → b < q.item_size → item b ≡ x b)
          × IsQueue q' xs)
unfolding dequeue advance
dequeue-refines q [] is = inl (refl, rw is.count)
dequeue-refines q (x ∷ xs) is = inr (
  x,
  xs,
  refl,
  (λ b. q.buffer (q.read_pos + b)),
  rest is,
  rw (occupied is) refl,
  first is,
  rest-IsQueue is,
)
  where
    occupied :
        {q : Queue} {x : Bytes} {xs : List Bytes} (is : IsQueue q (x ∷ xs)) → is_empty q ≡ false
    occupied is = ground (arith, is.count)

    first :
        {q : Queue} {x : Bytes} {xs : List Bytes} (is : IsQueue q (x ∷ xs)) (b : ℕ)
        → b < q.item_size
        → q.buffer (q.read_pos + b) ≡ x b
    first {q} {x} {xs} is b lt =
        ap (λ p. q.buffer (p + b))
          (is.reads ∙ ap (λ s. s * q.item_size) (ground (arith, is.in_ring)))
        ∙ is.filled.0 b lt

module _ {q : Queue} {xs : List Bytes} (is : IsQueue q xs) (item : Bytes)
    (room : length xs < q.length) where
  -- The slot before the first.
  abbrev before : ℕ
  before = if is.slot == 0 then q.length - 1 else is.slot - 1

  back-slot : back q ≡ before * q.item_size
  unfolding back
  back-slot =
      ap (λ t. if q.read_pos == 0 then t - q.item_size else q.read_pos - q.item_size) is.end_of
      ∙ ap (λ p. if p == 0 then q.item_size * q.length - q.item_size else p - q.item_size) is.reads
      ∙ back_of q.item_size q.length is.slot is.sized is.in_ring

  abbrev fronted : Queue
  fronted = record q {
    buffer = copy_nonoverlapping q.item_size item 0 q.buffer (back q);
    read_pos = back q;
    items_enqueued = (q.items_enqueued + 1) % usize_mod;
  }

  written : (b : ℕ) → b < q.item_size → fronted.buffer (before * q.item_size + b) ≡ item b
  written b lt =
      ap (λ p. copy_nonoverlapping q.item_size item 0 q.buffer p (before * q.item_size + b))
        back-slot
      ∙ copy_in q.item_size item 0 q.buffer (before * q.item_size) b lt
      ∙ ap item (omega arith)

  kept :
      (j b : ℕ)
      → is.slot ≤ j
      → j < is.slot + length xs
      → b < q.item_size
      → fronted.buffer (wrap q.length j * q.item_size + b)
        ≡ q.buffer (wrap q.length j * q.item_size + b)
  kept j b lo hi lt = copy_out q.item_size item 0 q.buffer (back q) _ (
      subst
        (λ p.
          (wrap q.length j * q.item_size + b < p)
          ⊎ (p + q.item_size ≤ wrap q.length j * q.item_size + b))
        (sym back-slot)
        (slots_apart q.item_size (wrap q.length j) before b
          (λ e. ground (arith, is.in_ring, room, e)) lt))

  fronted-IsQueue : IsQueue fronted (item ∷ xs)
  fronted-IsQueue = record {
    slot = before;
    in_ring = ground (arith, is.in_ring);
    sized = is.sized;
    small = is.small;
    end_of = is.end_of;
    reads = back-slot;
    count = omega (arith, is.count, is.small, slot_before q.length 0 q.item_size is.sized);
    bound = room;
    writes = is.writes ∙ ap (λ s. s * q.item_size) (ground (arith, is.in_ring, room));
    filled = (
      λ b lt.
          ap (λ s. fronted.buffer (s * q.item_size + b)) (ground (arith, is.in_ring))
          ∙ written b lt,
      Filled-same q.item_size q.length fronted.buffer is.slot (suc before) xs
          (λ j lt. ground (arith, is.in_ring, room))
          (Filled-frame q.item_size q.length q.buffer fronted.buffer is.slot xs kept is.filled),
    );
  }

-- A push at the front of a queue that is not full adds the item before the others, and a full queue
-- refuses it.
pub push_front-refines :
    (q : Queue) (xs : List Bytes) (item : Bytes)
    → IsQueue q xs
    → ((length xs < q.length) × (q' : Queue) × (push_front item q ≡ ok q') × IsQueue q' (item ∷ xs))
      ⊎ ((length xs ≡ q.length) × (push_front item q ≡ err QueueErr.queue_full))
unfolding push_front back copy_nonoverlapping
push_front-refines q xs item is = elim (Bool-cases (is_full q)) [
  | inl full ↦ inr (sym is.count ∙ ==→eq _ _ full, rw full)
  | inr room ↦
      let free : length xs < q.length = ground (arith, is.count, is.bound) in
      inl (free, fronted is item free, rw room, fronted-IsQueue is item free)
]
