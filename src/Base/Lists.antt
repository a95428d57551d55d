-- ===== src/Base/Lists.antt =====
-- Lists measured by native numbers, and maps from addresses.
use Prim.Native.Nat.{ℕ, suc, ◌+◌}
use mathlib.Core.Path.{◌≡◌, refl, fun_ext}
use mathlib.Core.Logic.{◌≢◌, ◌⊎◌, inl, inr}
use mathlib.Core.Bool.{Bool, false, ◌||◌}
use mathlib.Core.List.{List, [], ◌∷◌, ◌++◌}
use native.Mathlib.Omega.{arith}
use int_os.Base.Tests.{◌==◌, if◌then◌else◌}

module _ {ℓ} {A : Type ℓ} where
  abbrev pub length : List A → ℕ
  length [] = 0
  length (x ∷ xs) = suc (length xs)

  pub length-append : (xs ys : List A) → length (xs ++ ys) ≡ length xs + length ys
  length-append [] ys = omega arith
  length-append (x ∷ xs) ys = omega (arith, length-append xs ys)

  pub List-cases : (l : List A) → (l ≡ []) ⊎ ((x : A) × (r : List A) × (l ≡ x ∷ r))
  List-cases [] = inl refl
  List-cases (x ∷ xs) = inr (x, xs, refl)

abbrev pub has : ℕ → List ℕ → Bool
has a [] = false
has a (x ∷ xs) = (a == x) || has a xs

-- A map from addresses, changed at one of them.
module _ {ℓ} {A : Type ℓ} where
  abbrev pub update : (ℕ → A) → ℕ → A → ℕ → A
  update f p v a = if a == p then v else f a

  pub update-update : (f : ℕ → A) (p : ℕ) (v w : A) → update (update f p v) p w ≡ update f p w
  update-update f p v w = fun_ext λ a. ground arith

  pub update_comm :
      (f : ℕ → A) {p q : ℕ} (v w : A)
      → p ≢ q
      → update (update f p v) q w ≡ update (update f q w) p v
  update_comm f v w ne = fun_ext λ a. ground arith

  -- The same, with the same value at both addresses, which may then be equal.
  pub update_comm_same :
      (f : ℕ → A) (p q : ℕ) (v : A) → update (update f p v) q v ≡ update (update f q v) p v
  update_comm_same f p q v = fun_ext λ a. ground arith

  pub update_eq : (f : ℕ → A) (p : ℕ) (v : A) → f p ≡ v → update f p v ≡ f
  update_eq f p v e = fun_ext λ a. ground arith

  pub update_self : (f : ℕ → A) (p : ℕ) (v : A) → update f p v p ≡ v
  update_self f p v = ground arith

  pub update_ne : (f : ℕ → A) (p a : ℕ) (v : A) → (a == p) ≡ false → update f p v a ≡ f a
  update_ne f p a v ne = rw ne
