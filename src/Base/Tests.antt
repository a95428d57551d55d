-- ===== src/Base/Tests.antt =====
-- Boolean tests on the native numbers and on optional addresses, and the conditional.
use Prim.Native.Nat.{ℕ, ◌≤◌, ◌<◌, compare, Ordering}
use mathlib.Core.Path.{◌≡◌, refl, ap}
use mathlib.Core.Logic.{◌⊎◌, inl, inr}
use mathlib.Core.Bool.{Bool, true, false}
use mathlib.Core.Option.{Option, none, some}
use native.Mathlib.Omega.{arith}

-- A `usize` has 32 bits.
abbrev pub usize_mod : ℕ
usize_mod = 4294967296

abbrev pub ltb : ℕ → ℕ → Bool
ltb a b = elim (compare a b) [ Ordering.lt ↦ true | _ ↦ false ]

abbrev pub leb : ℕ → ℕ → Bool
leb a b = elim (compare a b) [ Ordering.gt ↦ false | _ ↦ true ]

infix 50 ◌==◌
abbrev pub ◌==◌ : ℕ → ℕ → Bool
a == b = elim (compare a b) [ Ordering.eq ↦ true | _ ↦ false ]

infix 1 if◌then◌else◌
abbrev pub if◌then◌else◌ {ℓ} : {A : Type ℓ} → Bool → A → A → A
if true then x else y = x
if false then x else y = y

-- Equality of two optional addresses.
abbrev pub link_eq : Option ℕ → Option ℕ → Bool
link_eq none none = true
link_eq none (some b) = false
link_eq (some a) none = false
link_eq (some a) (some b) = a == b

pub link_eq→eq : (p q : Option ℕ) → link_eq p q ≡ true → p ≡ q
link_eq→eq none none h = refl
link_eq→eq none (some b) h = ground arith
link_eq→eq (some a) none h = ground arith
link_eq→eq (some a) (some b) h = ground arith

pub link_eq_comm : (p q : Option ℕ) → link_eq p q ≡ link_eq q p
link_eq_comm none none = refl
link_eq_comm none (some b) = refl
link_eq_comm (some a) none = refl
link_eq_comm (some a) (some b) = ground arith

pub link_eq_refl : (p : Option ℕ) → link_eq p p ≡ true
link_eq_refl none = refl
link_eq_refl (some a) = ground arith

pub Bool-cases : (b : Bool) → (b ≡ true) ⊎ (b ≡ false)
Bool-cases true = inl refl
Bool-cases false = inr refl

pub Option-cases {ℓ} : {A : Type ℓ} (o : Option A) → (o ≡ none) ⊎ ((a : A) × (o ≡ some a))
Option-cases none = inl refl
Option-cases (some a) = inr (a, refl)

pub ==→eq : (a b : ℕ) → (a == b) ≡ true → a ≡ b
==→eq a b h = ground arith

pub leb→le : (a b : ℕ) → leb a b ≡ true → a ≤ b
leb→le a b h = ground arith

pub ltb→lt : (a b : ℕ) → ltb a b ≡ true → a < b
ltb→lt a b h = ground arith

-- The branch that gave a value.
pub taken : {A : Type 0} (b : Bool) (x y : A) → (if b then some x else none) ≡ some y → x ≡ y
taken true x y e = ap (λ o. elim o [ none ↦ x | some z ↦ z ]) e
taken false x y e = cc

-- The two branches of a test.
pub if_yes {ℓ} : {A : Type ℓ} {b : Bool} {x : A} (y : A) → b ≡ true → (if b then x else y) ≡ x
if_yes y h = rw h refl

pub if_no {ℓ} : {A : Type ℓ} {b : Bool} {y : A} (x : A) → b ≡ false → (if b then x else y) ≡ y
if_no x h = rw h refl
