-- ===== src/Queue/Runs.antt =====
-- Any sequence of operations on a queue, as on a list (src/queue.rs).
use mathlib.Core.Path.{subst}
use mathlib.Core.Option.{some-injective}
use int_os.Base.{
  length, usize_mod, ◌==◌, if◌then◌else◌, Bool-cases, ℕ, ◌*◌, ◌<◌, ◌≡◌, refl, sym, ap, ◌∙◌, inl,
  inr, true, false, ltb, some, List, [], ◌∷◌, ◌++◌, arith,
}
use int_os.Queue.{
  new, Queue, QueueErr, Result, ok, err, is_full, is_empty, push_back, push_front, dequeue,
}
use int_os.Journal.{Bytes}
use int_os.Queue.Holds.{IsQueue}
use int_os.Queue.Ring.{push_back-refines, new-IsQueue}
use int_os.Queue.Front.{push_front-refines, dequeue-refines}

pub data Op : Type 0 where
  back front : (item : Bytes) → Op
  take : Op

pub data Reply : Type 0 where
  done : Reply
  got : (item : Bytes) → Reply
  refused : QueueErr → Reply

-- An operation whose result is a queue only.
abbrev pushed : Queue → Result Queue → Reply × Queue
pushed q (ok q') = (done, q')
pushed q (err e) = (refused e, q)

abbrev taken : Queue → Result (Bytes × Queue) → Reply × Queue
taken q (ok (item, q')) = (got item, q')
taken q (err e) = (refused e, q)

abbrev pub step : Op → Queue → Reply × Queue
step (back item) q = pushed q (push_back item q)
step (front item) q = pushed q (push_front item q)
step take q = taken q (dequeue q.item_size q)

abbrev pub run : List Op → Queue → List Reply
run [] q = []
run (op ∷ ops) q = (step op q).0 ∷ run ops (step op q).1

-- The same on a list that takes at most `c` items.
abbrev pub list_step : ℕ → Op → List Bytes → Reply × List Bytes
list_step c (back item) xs =
    if ltb (length xs) c then (done, xs ++ (item ∷ [])) else (refused QueueErr.queue_full, xs)
list_step c (front item) xs =
    if ltb (length xs) c then (done, item ∷ xs) else (refused QueueErr.queue_full, xs)
list_step c take [] = (refused QueueErr.queue_empty, [])
list_step c take (x ∷ xs) = (got x, xs)

abbrev pub list_run : ℕ → List Op → List Bytes → List Reply
list_run c [] xs = []
list_run c (op ∷ ops) xs = (list_step c op xs).0 ∷ list_run c ops (list_step c op xs).1

-- Two replies are the same, with items of `n` bytes.
abbrev pub Same : ℕ → Reply → Reply → Type 0
Same n (got x) (got y) = (b : ℕ) → b < n → x b ≡ y b
Same n done done = Unit
Same n (refused e) (refused e') = e ≡ e'
Same n _ _ = ⊥

abbrev pub AllSame : ℕ → List Reply → List Reply → Type 0
AllSame n [] [] = Unit
AllSame n (r ∷ rs) (r' ∷ rs') = Same n r r' × AllSame n rs rs'
AllSame n _ _ = ⊥

-- The queue keeps its size.
Sized : Queue → Queue → Type 0
Sized q q' = (q'.length ≡ q.length) × (q'.item_size ≡ q.item_size)

step-Sized : (op : Op) (q : Queue) → Sized q (step op q).1
unfolding Sized push_back push_front dequeue
step-Sized (back item) q = elim (Bool-cases (is_full q)) [
  | inl full ↦ rw full (refl, refl)
  | inr room ↦ rw room (refl, refl)
]
step-Sized (front item) q = elim (Bool-cases (is_full q)) [
  | inl full ↦ rw full (refl, refl)
  | inr room ↦ rw room (refl, refl)
]
step-Sized take q = elim (Bool-cases (is_empty q)) [
  | inl empty ↦ rw empty (refl, refl)
  | inr some_left ↦ rw some_left (refl, refl)
]

-- One operation.
abbrev Steps : Op → Queue → List Bytes → Type 0
Steps op q xs =
    Same q.item_size (step op q).0 (list_step q.length op xs).0
    × IsQueue (step op q).1 (list_step q.length op xs).1

step-Steps : (op : Op) (q : Queue) (xs : List Bytes) → IsQueue q xs → Steps op q xs
step-Steps (back item) q xs is = elim (push_back-refines q xs item is) [
  | inl (room, q', e, is') ↦
      let free : ltb (length xs) q.length ≡ true = ground (arith, room) in rw (e, free) (tt, is')
  | inr (full, e) ↦
      let no_room : ltb (length xs) q.length ≡ false = ground (arith, full) in
      rw (e, no_room) (refl, is)
]
step-Steps (front item) q xs is = elim (push_front-refines q xs item is) [
  | inl (room, q', e, is') ↦
      let free : ltb (length xs) q.length ≡ true = ground (arith, room) in rw (e, free) (tt, is')
  | inr (full, e) ↦
      let no_room : ltb (length xs) q.length ≡ false = ground (arith, full) in
      rw (e, no_room) (refl, is)
]
step-Steps take q xs is = elim (dequeue-refines q xs is) [
  | inl (empty, e) ↦ subst (Steps take q) (sym empty) (rw e (refl, subst (IsQueue q) empty is))
  | inr (x, rest, front_of, item, q', e, same, is') ↦
      subst (Steps take q) (sym front_of) (rw e (same, is'))
]

run-AllSame :
    (n c : ℕ) (ops : List Op) (q : Queue) (xs : List Bytes)
    → q.item_size ≡ n
    → q.length ≡ c
    → IsQueue q xs
    → AllSame n (run ops q) (list_run c ops xs)
unfolding Sized
run-AllSame n c [] q xs size len is = tt
run-AllSame n c (op ∷ ops) q xs size len is =
    let one = step-Steps op q xs is in
    let sized = step-Sized op q in
    (
      subst (λ k. Same k (step op q).0 (list_step c op xs).0) size
          (subst (λ k. Same q.item_size (step op q).0 (list_step k op xs).0) len one.0),
      run-AllSame n c ops (step op q).1 (list_step c op xs).1 (sized.1 ∙ size) (sized.0 ∙ len)
          (subst (λ k. IsQueue (step op q).1 (list_step k op xs).1) len one.1),
    )

pub new-fields :
    (len n : ℕ) (buffer : Bytes) (q : Queue)
    → new len n buffer ≡ some q
    → (q.item_size ≡ n) × (q.length ≡ len)
unfolding new
new-fields len n buffer q e = elim (Bool-cases (len == 0)) [
  | inl bad ↦ absurd (ground (arith, rw (new, bad) at e))
  | inr good ↦
      let same = some-injective _ _ (rw (new, good) at e) in
      (sym (ap {A = Queue} (λ x. x.item_size) same), sym (ap {A = Queue} (λ x. x.length) same))
]

-- A new queue with room for items behaves, for every sequence of pushes at its back and its front and of
-- reads of items, as an empty list that takes at most `len` items: it gives the bytes of the same items,
-- and it refuses the same operations, in the full and in the empty queue. The items of the queue fit in
-- the memory.
pub new-run :
    (len item_size : ℕ) (buffer : Bytes) (ops : List Op)
    → 0 < len
    → 0 < item_size
    → item_size * len < usize_mod
    → (q : Queue) × (new len item_size buffer ≡ some q)
      × AllSame item_size (run ops q) (list_run len ops [])
new-run len item_size buffer ops room sized small =
    let made = new-IsQueue len item_size buffer room sized small in
    let fields = new-fields len item_size buffer made.0 made.1 in
    (made.0, made.1, run-AllSame item_size len ops made.0 [] fields.0 fields.1 made.2)

-- The operations keep the length of the queue.
pub push_back-length :
    (item : Bytes) (q q' : Queue) → push_back item q ≡ ok q' → q'.length ≡ q.length
unfolding Sized
push_back-length item q q' e =
    sym (ap (λ r. (pushed q r).1.length) e) ∙ (step-Sized (back item) q).0

pub push_front-length :
    (item : Bytes) (q q' : Queue) → push_front item q ≡ ok q' → q'.length ≡ q.length
unfolding Sized
push_front-length item q q' e =
    sym (ap (λ r. (pushed q r).1.length) e) ∙ (step-Sized (front item) q).0

pub dequeue-length :
    (item : Bytes) (q q' : Queue) → dequeue q.item_size q ≡ ok (item, q') → q'.length ≡ q.length
unfolding Sized
dequeue-length item q q' e = sym (ap (λ r. (taken q r).1.length) e) ∙ (step-Sized take q).0
