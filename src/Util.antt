-- ===== src/Util.antt =====
-- The sort of src/util.rs.
pub mod Sorted
use int_os.Base.{
  ℕ, zero, suc, ◌+◌, ◌-◌, Bool, true, false, List, [], ◌∷◌, length, ltb, leb, if◌then◌else◌,
  usize_mod,
}

module _ {A : Type 0} (gt : A → A → Bool) where
  -- The inner loop, for the next `i` positions, from the one that the list starts at: the list, and
  -- whether it has swapped.
  unfoldable pub bubble : ℕ → List A → List A × Bool
  bubble zero xs = (xs, false)
  bubble (suc i) [] = ([], false)
  bubble (suc i) (x ∷ []) = (x ∷ [], false)
  bubble (suc i) (x ∷ y ∷ r) =
      let swapped = bubble i (x ∷ r) in
      let kept = bubble i (y ∷ r) in if gt x y then (y ∷ swapped.0, true) else (x ∷ kept.0, kept.1)

  -- The outer loop, for the values of `i` below the number.
  unfoldable pub bubble_down : ℕ → List A → List A
  unfolding bubble
  bubble_down zero xs = xs
  bubble_down (suc i) xs =
      let pass = bubble i xs in let rest = bubble_down i pass.0 in if pass.1 then rest else pass.0

  unfoldable pub bubble_sort : List A → List A
  unfolding bubble_down
  bubble_sort input = if ltb (length input) 2 then input else bubble_down (length input) input
