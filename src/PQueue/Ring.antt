-- ===== src/PQueue/Ring.antt =====
-- The positions of a ring, and its elements (src/user/pqueue.rs).
use int_os.Base.{
  ◌⊎◌, inl, inr, Bool-cases, ℕ, zero, suc, ◌+◌, ◌≤◌, ◌<◌, ◌≡◌, refl, ◌∙◌, arith, true, false, List,
  [], ◌∷◌, ◌++◌, length, ◌==◌, update, update_self, update_ne,
}
use int_os.PQueue.{next}

-- The position `n` places behind `i`.
abbrev pub advance : ℕ → ℕ → ℕ → ℕ
advance cap zero i = i
advance cap (suc n) i = advance cap n (next cap i)

pub next-lt : (cap i : ℕ) → i < cap → next cap i < cap
unfolding next
next-lt cap i h = ground (arith, h)

pub advance-next : (cap n i : ℕ) → next cap (advance cap n i) ≡ advance cap (suc n) i
advance-next cap zero i = refl
advance-next cap (suc n) i = advance-next cap n (next cap i)

next-wraps : (cap i : ℕ) → (i + 1 == cap) ≡ true → next cap i ≡ 0
unfolding next
next-wraps cap i h = rw h refl

next-stays : (cap i : ℕ) → (i + 1 == cap) ≡ false → next cap i ≡ i + 1
unfolding next
next-stays cap i h = rw h refl

advance-sum :
    (cap n i : ℕ)
    → i < cap
    → n ≤ cap
    → ((advance cap n i ≡ i + n) × (i + n < cap)) ⊎ (advance cap n i + cap ≡ i + n)
advance-sum cap zero i h le = inl (omega arith, omega (arith, h))
advance-sum cap (suc n) i h le =
    let ih = advance-sum cap n (next cap i) (next-lt cap i h) (omega (arith, le)) in
    elim (Bool-cases (i + 1 == cap)) [
      | inl wraps ↦
          let z = next-wraps cap i wraps in
          elim ih [
            | inl (e, lt) ↦ inr (ground (arith, e, z, wraps))
            | inr e ↦ absurd (ground (arith, e, z, le))
          ]
      | inr stays ↦
          let z = next-stays cap i stays in
          elim ih [
            | inl (e, lt) ↦ inl (omega (arith, e, z), omega (arith, lt, z))
            | inr e ↦ inr (omega (arith, e, z))
          ]
    ]

pub advance-around : (cap i n : ℕ) → i < cap → n ≡ cap → advance cap n i ≡ i
advance-around cap i n h e = elim (advance-sum cap n i h (omega (arith, e))) [
  | inl (s, under) ↦ absurd (omega (arith, under, e))
  | inr s ↦ omega (arith, s, e)
]

pub advance-ne : (cap n i : ℕ) → i < cap → 0 < n → n < cap → (i == advance cap n i) ≡ false
advance-ne cap n i h pos lt = elim (advance-sum cap n i h (omega (arith, lt))) [
  | inl (e, under) ↦ ground (arith, e, pos)
  | inr e ↦ ground (arith, e, lt)
]

module _ {A : Type 0} where
  -- The elements from a position on.
  abbrev pub Elems : ℕ → (ℕ → A) → ℕ → List A → Type 0
  Elems cap buf at [] = Unit
  Elems cap buf at (x ∷ xs) = (buf at ≡ x) × Elems cap buf (next cap at) xs

  -- A write behind the elements leaves them, and adds one.
  pub Elems-push :
      (cap : ℕ) (x : A) (xs : List A) (buf : ℕ → A) (at : ℕ)
      → at < cap
      → length xs < cap
      → Elems cap buf at xs
      → Elems cap (update buf (advance cap (length xs) at) x) at (xs ++ (x ∷ []))
  Elems-push cap x [] buf at h lt e = (update_self buf at x, tt)
  Elems-push cap x (y ∷ r) buf at h lt e = (
    update_ne buf (advance cap (length (y ∷ r)) at) at x
          (advance-ne cap (length (y ∷ r)) at h (omega arith) lt)
        ∙ e.0,
    Elems-push cap x r buf (next cap at) (next-lt cap at h) (omega (arith, lt)) e.1,
  )
