-- ===== src/Util/Sorted.antt =====
-- The result of `bubble_sort` (src/util.rs).
use mathlib.Core.List.{Perm, append_assoc, append-nil}
use mathlib.Core.List.Perm
use int_os.Base.{
  inl, inr, ℕ, zero, suc, ◌≡◌, ◌∙◌, ap, refl, arith, Bool, true, false, List, [], ◌∷◌, ◌++◌, length,
  ltb, if◌then◌else◌, Bool-cases, sym,
}
use int_os.Util.{bubble, bubble_down, bubble_sort}

-- No element is greater than the next, and the property of all elements.
abbrev pub IsAscending : {A : Type 0} → (A → A → Bool) → List A → Type 0
IsAscending gt [] = Unit
IsAscending gt (x ∷ []) = Unit
IsAscending gt (x ∷ y ∷ r) = (gt x y ≡ false) × IsAscending gt (y ∷ r)

abbrev All : {A : Type 0} → (A → Type 0) → List A → Type 0
All P [] = Unit
All P (x ∷ xs) = P x × All P xs

module _ {A : Type 0} (gt : A → A → Bool) where
  -- The pass of `x` over a list: what it leaves before the last element, that one, and whether it has
  -- swapped.
  carry : A → List A → List A
  carry x [] = []
  carry x (y ∷ r) = let up = carry x r in let on = carry y r in if gt x y then y ∷ up else x ∷ on

  top : A → List A → A
  top x [] = x
  top x (y ∷ r) = let up = top x r in let on = top y r in if gt x y then up else on

  swaps : A → List A → Bool
  swaps x [] = false
  swaps x (y ∷ r) = let on = swaps y r in if gt x y then true else on

  bubble-carry :
      (x : A) (xs s : List A)
      → bubble gt (length xs) (x ∷ (xs ++ s)) ≡ (carry x xs ++ (top x xs ∷ s), swaps x xs)
  unfolding bubble carry top swaps
  bubble-carry x [] s = refl
  bubble-carry x (y ∷ r) s = elim (Bool-cases (gt x y)) [
    | inl g ↦ rw (g, bubble-carry x r s) refl
    | inr g ↦ rw (g, bubble-carry y r s) refl
  ]

  length-carry : (x : A) (xs : List A) → length (carry x xs) ≡ length xs
  unfolding carry
  length-carry x [] = refl
  length-carry x (y ∷ r) = ground (arith, length-carry x r, length-carry y r)

  All-carry :
      (P : A → Type 0) (x : A) (xs : List A) → P x → All P xs → All P (carry x xs) × P (top x xs)
  unfolding carry top
  All-carry P x [] p ps = (tt, p)
  All-carry P x (y ∷ r) p ps = elim (Bool-cases (gt x y)) [
    | inl g ↦ let h = All-carry P x r p ps.1 in rw g ((ps.0, h.0), h.1)
    | inr g ↦ let h = All-carry P y r ps.0 ps.1 in rw g ((p, h.0), h.1)
  ]

  carry-sorted :
      (x : A) (xs : List A)
      → swaps x xs ≡ false
      → (carry x xs ++ (top x xs ∷ []) ≡ x ∷ xs) × IsAscending gt (x ∷ xs)
  unfolding carry top swaps
  carry-sorted x [] e = (refl, tt)
  carry-sorted x (y ∷ r) e = elim (Bool-cases (gt x y)) [
    | inl g ↦ absurd (ground (arith, g, e))
    | inr g ↦
        let h = carry-sorted y r (ground (arith, g, e)) in rw g (ap (λ l. x ∷ l) h.0, (refl, h.1))
  ]

  -- The loops only move elements.
  bubble-perm : (i : ℕ) (xs : List A) → Perm (bubble gt i xs).0 xs
  unfolding bubble
  bubble-perm zero xs = Perm.refl xs
  bubble-perm (suc i) [] = Perm.refl []
  bubble-perm (suc i) (x ∷ []) = Perm.refl (x ∷ [])
  bubble-perm (suc i) (x ∷ y ∷ r) = elim (Bool-cases (gt x y)) [
    | inl g ↦ rw g (Perm.trans (Perm.cons y (bubble-perm i (x ∷ r))) (Perm.swap x y r))
    | inr g ↦ rw g (Perm.cons x (bubble-perm i (y ∷ r)))
  ]

  bubble_down-perm : (i : ℕ) (xs : List A) → Perm (bubble_down gt i xs) xs
  unfolding bubble_down
  bubble_down-perm zero xs = Perm.refl xs
  bubble_down-perm (suc i) xs = elim (Bool-cases (bubble gt i xs).1) [
    | inl e ↦ rw e (Perm.trans (bubble_down-perm i (bubble gt i xs).0) (bubble-perm i xs))
    | inr e ↦ rw e (bubble-perm i xs)
  ]

  -- The order is total and transitive.
  module _ (total : (a b : A) → gt a b ≡ true → gt b a ≡ false)
      (transitive : (a b c : A) → gt a b ≡ false → gt b c ≡ false → gt a c ≡ false) where
    abbrev LeAll : List A → A → Type 0
    LeAll s a = All (λ b. gt a b ≡ false) s

    top-greatest :
        (x : A) (xs : List A)
        → All (λ a. gt a (top x xs) ≡ false) (carry x xs) × (gt x (top x xs) ≡ false)
    unfolding carry top
    top-greatest x [] = (tt, ground (arith, total x x))
    top-greatest x (y ∷ r) = elim (Bool-cases (gt x y)) [
      | inl g ↦
          let h = top-greatest x r in rw g ((transitive y x (top x r) (total x y g) h.1, h.0), h.1)
      | inr g ↦
          let h = top-greatest y r in
          let le = transitive x y (top y r) g h.1 in rw g ((le, h.0), le)
    ]

    IsAscending-cons : (x : A) (s : List A) → LeAll s x → IsAscending gt s → IsAscending gt (x ∷ s)
    IsAscending-cons x [] le asc = tt
    IsAscending-cons x (y ∷ r) le asc = (le.0, asc)

    IsAscending-append :
        (p s : List A)
        → IsAscending gt p
        → IsAscending gt s
        → All (LeAll s) p
        → IsAscending gt (p ++ s)
    IsAscending-append [] s up us le = us
    IsAscending-append (x ∷ []) s up us le = IsAscending-cons x s le.0 us
    IsAscending-append (x ∷ y ∷ r) s up us le = (up.0, IsAscending-append (y ∷ r) s up.1 us le.1)

    All-both :
        (m : A) (s p : List A)
        → All (λ a. gt a m ≡ false) p
        → All (LeAll s) p
        → All (LeAll (m ∷ s)) p
    All-both m s [] h k = tt
    All-both m s (a ∷ p) h k = ((h.0, k.0), All-both m s p h.1 k.1)

    bubble_down-IsAscending :
        (i : ℕ) (p s : List A)
        → length p ≡ i
        → IsAscending gt s
        → All (LeAll s) p
        → IsAscending gt (bubble_down gt i (p ++ s))
    unfolding bubble_down
    bubble_down-IsAscending zero [] s e asc le = asc
    bubble_down-IsAscending zero (x ∷ xs) s e asc le = absurd (omega arith)
    bubble_down-IsAscending (suc i) [] s e asc le = absurd (omega arith)
    bubble_down-IsAscending (suc i) (x ∷ xs) s e asc le =
        let pass : bubble gt i (x ∷ (xs ++ s)) ≡ (carry x xs ++ (top x xs ∷ s), swaps x xs) =
          ap (λ n. bubble gt n (x ∷ (xs ++ s))) (omega arith) ∙ bubble-carry x xs s in
        let lower = All-carry (LeAll s) x xs le.0 le.1 in
        elim (Bool-cases (swaps x xs)) [
          | inl swapped ↦
              rw (pass, swapped)
                (bubble_down-IsAscending i (carry x xs) (top x xs ∷ s)
                  (length-carry x xs ∙ omega arith) (IsAscending-cons (top x xs) s lower.1 asc)
                  (All-both (top x xs) s (carry x xs) (top-greatest x xs).0 lower.0))
          | inr kept ↦
              let same = carry-sorted x xs kept in
              let whole : carry x xs ++ (top x xs ∷ s) ≡ (x ∷ xs) ++ s =
                sym (append_assoc (carry x xs) (top x xs ∷ []) s) ∙ ap (λ l. l ++ s) same.0 in
              rw (pass, kept) (rw whole (IsAscending-append (x ∷ xs) s same.1 asc le))
        ]

    few : (xs : List A) → ltb (length xs) 2 ≡ true → IsAscending gt xs
    few [] h = tt
    few (x ∷ []) h = tt
    few (x ∷ y ∷ r) h = absurd (ground (arith, h))

    All-unit : (p : List A) → All (LeAll []) p
    All-unit [] = tt
    All-unit (x ∷ p) = (tt, All-unit p)

    -- With a total and transitive order the result of the sort is in ascending order, and a
    -- permutation of the input.
    pub bubble_sort-sorts :
        (input : List A) → IsAscending gt (bubble_sort gt input) × Perm (bubble_sort gt input) input
    unfolding bubble_sort
    bubble_sort-sorts input = elim (Bool-cases (ltb (length input) 2)) [
      | inl short ↦ rw short (few input short, Perm.refl input)
      | inr long ↦ rw long (
        rw (append-nil input) at
            (bubble_down-IsAscending (length input) input [] refl tt (All-unit input)),
        bubble_down-perm (length input) input,
      )
    ]
