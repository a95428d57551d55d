-- ===== src/PQueue/Refines.antt =====
-- The queue is a list that is bounded (src/user/pqueue.rs).
use int_os.Base.{
  ℕ, suc, ◌+◌, ◌-◌, ◌≤◌, ◌<◌, ◌≡◌, refl, sym, ap, ◌∙◌, arith, true, false, Option, none, some, List,
  [], ◌∷◌, ◌++◌, length, ltb, ◌==◌, if◌then◌else◌, inl, inr, Bool-cases, update,
}
use mathlib.Core.Option.{some-injective}
use int_os.PQueue.{PQueue, next, try_new, push_back, pop_front, peek_front, clear}
use int_os.PQueue.Ring.{advance, advance-next, next-lt, Elems, Elems-push}

pub data Op (A : Type 0) : Type 0 where
  push : A → Op A
  pop : Op A
  peek : Op A
  reset : Op A

module _ {A : Type 0} where
  -- One operation: what it returns, and the queue; `none` where it panics.
  abbrev pub step : Op A → PQueue A → Option (Option A × PQueue A)
  step (push x) q = elim (push_back x q) [ none ↦ none | some q' ↦ some (none, q') ]
  step pop q = some (pop_front q)
  step peek q = some (peek_front q, q)
  step reset q = some (none, clear q)

  abbrev cons : Option A → Option (List (Option A)) → Option (List (Option A))
  cons o none = none
  cons o (some os) = some (o ∷ os)

  -- What the operations return, in order.
  abbrev pub run : List (Op A) → PQueue A → Option (List (Option A))
  run [] q = some []
  run (op ∷ ops) q = elim (step op q) [ none ↦ none | some r ↦ cons r.0 (run ops r.1) ]

  -- The same on a list of at most `cap` elements.
  abbrev pub list_step : ℕ → Op A → List A → Option (Option A × List A)
  list_step cap (push x) xs = if ltb (length xs) cap then some (none, xs ++ (x ∷ [])) else none
  list_step cap pop [] = some (none, [])
  list_step cap pop (x ∷ xs) = some (some x, xs)
  list_step cap peek [] = some (none, [])
  list_step cap peek (x ∷ xs) = some (some x, x ∷ xs)
  list_step cap reset xs = some (none, [])

  abbrev pub list_run : ℕ → List (Op A) → List A → Option (List (Option A))
  list_run cap [] xs = some []
  list_run cap (op ∷ ops) xs = elim (list_step cap op xs) [
    | none ↦ none
    | some r ↦ cons r.0 (list_run cap ops r.1)
  ]

  abbrev pub Holds : PQueue A → List A → Type 0
  Holds q xs =
      (q.head < q.cap)
      × (q.len ≡ length xs)
      × (length xs ≤ q.cap)
      × (q.tail ≡ advance q.cap (length xs) q.head)
      × Elems q.cap q.buf q.head xs

  length-snoc : (xs : List A) (x : A) → length (xs ++ (x ∷ [])) ≡ suc (length xs)
  length-snoc [] x = refl
  length-snoc (y ∷ r) x = ap suc (length-snoc r x)

  push_back-Holds :
      (x : A) (q : PQueue A) (xs : List A)
      → Holds q xs
      → length xs < q.cap
      → (q' : PQueue A) × (push_back x q ≡ some q') × (q'.cap ≡ q.cap) × Holds q' (xs ++ (x ∷ []))
  unfolding push_back
  push_back-Holds x q xs h room =
      let fits : ltb q.len q.cap ≡ true = ground (arith, h.1, room) in
      let n = length-snoc xs x in
      (
        record q { buf = update q.buf q.tail x; tail = next q.cap q.tail; len = q.len + 1 },
        rw fits refl,
        refl,
        (
          h.0,
          omega (arith, h.1, n),
          omega (arith, n, room),
          ap (next q.cap) h.3
              ∙ advance-next q.cap (length xs) q.head
              ∙ ap (λ k. advance q.cap k q.head) (sym n),
          rw h.3 (Elems-push q.cap x xs q.buf q.head h.0 room h.4),
        ),
      )

  push_back-full :
      (x : A) (q : PQueue A) (xs : List A)
      → Holds q xs
      → ltb (length xs) q.cap ≡ false
      → push_back x q ≡ none
  unfolding push_back
  push_back-full x q xs h full = rw (h.1, full) refl

  pop_front-Holds :
      (x : A) (q : PQueue A) (xs : List A)
      → Holds q (x ∷ xs)
      → (q' : PQueue A) × (pop_front q ≡ (some x, q')) × (q'.cap ≡ q.cap) × Holds q' xs
  unfolding pop_front
  pop_front-Holds x q xs h =
      let more : (q.len == 0) ≡ false = ground (arith, h.1) in
      (
        record q { head = next q.cap q.head; len = q.len - 1 },
        rw (more, h.4.0) refl,
        refl,
        (next-lt q.cap q.head h.0, omega (arith, h.1), omega (arith, h.2), h.3, h.4.1),
      )

  pop_front-empty : (q : PQueue A) → q.len ≡ 0 → pop_front q ≡ (none, q)
  unfolding pop_front
  pop_front-empty q e = rw e refl

  peek_front-Holds : (x : A) (q : PQueue A) (xs : List A) → Holds q (x ∷ xs) → peek_front q ≡ some x
  unfolding peek_front
  peek_front-Holds x q xs h =
      let more : (q.len == 0) ≡ false = ground (arith, h.1) in rw (more, h.4.0) refl

  peek_front-empty : (q : PQueue A) → q.len ≡ 0 → peek_front q ≡ none
  unfolding peek_front
  peek_front-empty q e = rw e refl

  clear-Holds :
      (q : PQueue A) (xs : List A) → Holds q xs → ((clear q).cap ≡ q.cap) × Holds (clear q) []
  unfolding clear
  clear-Holds q xs h = (refl, (omega (arith, h.0), refl, omega arith, refl, tt))

  module _ (c : ℕ) (ops : List (Op A)) where
    run-some :
        (op : Op A) (q : PQueue A) (r : Option A × PQueue A)
        → step op q ≡ some r
        → run (op ∷ ops) q ≡ cons r.0 (run ops r.1)
    run-some op q r e = rw (run, e) refl

    run-none : (op : Op A) (q : PQueue A) → step op q ≡ none → run (op ∷ ops) q ≡ none
    run-none op q e = rw (run, e) refl

    list_run-some :
        (op : Op A) (xs : List A) (r : Option A × List A)
        → list_step c op xs ≡ some r
        → list_run c (op ∷ ops) xs ≡ cons r.0 (list_run c ops r.1)
    list_run-some op xs r e = rw (list_run, e) refl

    list_run-none :
        (op : Op A) (xs : List A) → list_step c op xs ≡ none → list_run c (op ∷ ops) xs ≡ none
    list_run-none op xs e = rw (list_run, e) refl

  Holds-run :
      (c : ℕ) (ops : List (Op A)) (q : PQueue A) (xs : List A)
      → q.cap ≡ c
      → Holds q xs
      → run ops q ≡ list_run c ops xs
  Holds-run c [] q xs e h = refl
  Holds-run c (push x ∷ ops) q xs e h = elim (Bool-cases (ltb (length xs) c)) [
    | inl fits ↦
        let p = push_back-Holds x q xs h (ground (arith, fits, e)) in
        run-some c ops (push x) q (none, p.0) (rw (step, p.1) refl)
        ∙ ap (cons none) (Holds-run c ops p.0 (xs ++ (x ∷ [])) (p.2 ∙ e) p.3)
        ∙ sym (list_run-some c ops (push x) xs (none, xs ++ (x ∷ [])) (rw (list_step, fits) refl))
    | inr full ↦
        let p = push_back-full x q xs h (ap (λ k. ltb (length xs) k) e ∙ full) in
        run-none c ops (push x) q (rw (step, p) refl)
        ∙ sym (list_run-none c ops (push x) xs (rw (list_step, full) refl))
  ]
  Holds-run c (pop ∷ ops) q [] e h =
      run-some c ops pop q (none, q) (ap some (pop_front-empty q h.1))
      ∙ ap (cons none) (Holds-run c ops q [] e h)
  Holds-run c (pop ∷ ops) q (x ∷ xs) e h =
      let p = pop_front-Holds x q xs h in
      run-some c ops pop q (some x, p.0) (ap some p.1)
      ∙ ap (cons (some x)) (Holds-run c ops p.0 xs (p.2 ∙ e) p.3)
  Holds-run c (peek ∷ ops) q [] e h =
      run-some c ops peek q (none, q) (ap (λ o. some (o, q)) (peek_front-empty q h.1))
      ∙ ap (cons none) (Holds-run c ops q [] e h)
  Holds-run c (peek ∷ ops) q (x ∷ xs) e h =
      run-some c ops peek q (some x, q) (ap (λ o. some (o, q)) (peek_front-Holds x q xs h))
      ∙ ap (cons (some x)) (Holds-run c ops q (x ∷ xs) e h)
  Holds-run c (reset ∷ ops) q xs e h =
      let p = clear-Holds q xs h in
      run-some c ops reset q (none, clear q) refl
      ∙ ap (cons none) (Holds-run c ops (clear q) [] (p.0 ∙ e) p.1)

  -- A new queue of at least one element behaves, for every sequence of pushes, pops, looks at the front
  -- and clears, as an empty list that takes at most `cap` elements: it returns the same, and panics at
  -- the same push, when the list is full.
  pub new-refines :
      (buf : ℕ → A) (c : ℕ) (q : PQueue A) (ops : List (Op A))
      → try_new buf c ≡ some q
      → run ops q ≡ list_run c ops []
  unfolding try_new
  new-refines buf c q ops e = elim (Bool-cases (c == 0)) [
    | inl bad ↦ absurd (ground (arith, bad, e))
    | inr good ↦
        let fresh : PQueue A = record { buf = buf; cap = c; head = 0; tail = 0; len = 0 } in
        let is_fresh : q ≡ fresh = some-injective _ _ (sym (rw (try_new, good) at e)) in
        rw is_fresh
          (Holds-run c ops fresh [] refl (ground (arith, good), refl, omega arith, refl, tt))
  ]
