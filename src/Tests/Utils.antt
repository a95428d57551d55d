-- ===== src/Tests/Utils.antt =====
-- The sort of a few numbers (src/util.rs).
use int_os.Base.{ℕ, ◌≡◌, refl, arith, Bool, true, false, [], ◌∷◌, ltb}
use int_os.Util.{bubble_sort}
use int_os.Util.Sorted.{IsAscending, bubble_sort-sorts}
use mathlib.Core.List.{Perm}

abbrev gt : ℕ → ℕ → Bool
gt a b = ltb b a

gt-total : (a b : ℕ) → gt a b ≡ true → gt b a ≡ false
gt-total a b h = ground arith

gt-transitive : (a b c : ℕ) → gt a b ≡ false → gt b c ≡ false → gt a c ≡ false
gt-transitive a b c h k = ground arith

sorted : bubble_sort gt (5 ∷ 2 ∷ 9 ∷ 2 ∷ []) ≡ 2 ∷ 2 ∷ 5 ∷ 9 ∷ []
unfolding bubble_sort
sorted = refl

bubble_sort-sorts_example :
    IsAscending gt (bubble_sort gt (5 ∷ 2 ∷ 9 ∷ 2 ∷ []))
    × Perm (bubble_sort gt (5 ∷ 2 ∷ 9 ∷ 2 ∷ [])) (5 ∷ 2 ∷ 9 ∷ 2 ∷ [])
bubble_sort-sorts_example = bubble_sort-sorts gt gt-total gt-transitive (5 ∷ 2 ∷ 9 ∷ 2 ∷ [])
