-- ===== src/PQueue/Aborted.antt =====
-- A transaction on a full queue that is rolled back (src/user/pqueue.rs).
use int_os.Base.{
  ◌+◌, ◌-◌, ◌≡◌, refl, ap, ◌∙◌, arith, true, false, some, List, ◌∷◌, length, ltb, ◌==◌, update,
  update_self,
}
use int_os.PQueue.{PQueue, next, push_back, pop_front}
use int_os.PQueue.Ring.{advance-around}
use int_os.PQueue.Refines.{Holds}

module _ {A : Type 0} where
  -- The journal restores the positions of `q`; the elements are those of the later queue.
  abbrev pub roll_back : PQueue A → PQueue A → PQueue A
  roll_back q later = record q { buf = later.buf }

  -- A transaction takes the front of a full queue and adds an element, and is rolled back: the front
  -- of the queue is then the element that was added, and the one before is lost.
  pub pop-push-roll_back :
      (q : PQueue A) (x y : A) (xs : List A)
      → Holds q (x ∷ xs)
      → length (x ∷ xs) ≡ q.cap
      → ((pop_front q).0 ≡ some x)
        × (later : PQueue A) × (push_back y (pop_front q).1 ≡ some later)
        × ((pop_front (roll_back q later)).0 ≡ some y)
  unfolding pop_front push_back
  pop-push-roll_back q x y xs h full =
      let more : (q.len == 0) ≡ false = ground (arith, h.1) in
      let fits : ltb (q.len - 1) q.cap ≡ true = ground (arith, h.1, full) in
      let slot : q.tail ≡ q.head = h.3 ∙ advance-around q.cap q.head (length (x ∷ xs)) h.0 full in
      (
        rw (more, h.4.0) refl,
        record q {
          buf = update q.buf q.tail y;
          head = next q.cap q.head;
          tail = next q.cap q.tail;
          len = q.len - 1 + 1;
        },
        rw (more, fits) refl,
        rw (more, slot) (ap some (update_self q.buf q.head y)),
      )
