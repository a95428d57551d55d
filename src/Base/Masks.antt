-- ===== src/Base/Masks.antt =====
-- Bitwise operations with masks at variables, from the law for the lowest digit.
use native.Mathlib.Nat.{pow-suc}
use Prim.Native.Nat.{
  ℕ, zero, suc, ◌+◌, ◌*◌, ◌/◌, ◌%◌, ◌^◌, ◌≤◌, ◌<◌, min, max, bit_and, bit_or, digits,
  bit_and-bitwise, bit_or-bitwise,
}
use mathlib.Core.Path.{◌≡◌, refl, ◌∙◌, ap, sym}
use native.Mathlib.Omega.{arith}

-- `k` digits zero below `a`, and the `k` lowest digits of `a`.
abbrev pub shl : ℕ → ℕ → ℕ
shl zero a = a
shl (suc k) a = shl k a * 2

abbrev pub shr : ℕ → ℕ → ℕ
shr zero a = a
shr (suc k) a = shr k (a / 2)

abbrev pub low : ℕ → ℕ → ℕ
low zero a = 0
low (suc k) a = low k (a / 2) * 2 + a % 2

-- So many ones.
abbrev pub ones : ℕ → ℕ
ones zero = 0
ones (suc k) = ones k * 2 + 1

and_fuel :
    (n m a b : ℕ) → a ≤ n → a ≤ m → digits (λ _. zero) min n a b ≡ digits (λ _. zero) min m a b
and_fuel zero zero a b p q = refl
and_fuel zero (suc m) zero b p q = refl
and_fuel zero (suc m) (suc a) b p q = absurd (omega arith)
and_fuel (suc n) zero zero b p q = refl
and_fuel (suc n) zero (suc a) b p q = absurd (omega arith)
and_fuel (suc n) (suc m) zero b p q = refl
and_fuel (suc n) (suc m) (suc a) b p q =
    omega (arith, and_fuel n m (suc a / 2) (b / 2) (omega arith) (omega arith))

or_fuel : (n m a b : ℕ) → a ≤ n → a ≤ m → digits (λ b. b) max n a b ≡ digits (λ b. b) max m a b
or_fuel zero zero a b p q = refl
or_fuel zero (suc m) zero b p q = refl
or_fuel zero (suc m) (suc a) b p q = absurd (omega arith)
or_fuel (suc n) zero zero b p q = refl
or_fuel (suc n) zero (suc a) b p q = absurd (omega arith)
or_fuel (suc n) (suc m) zero b p q = refl
or_fuel (suc n) (suc m) (suc a) b p q =
    omega (arith, or_fuel n m (suc a / 2) (b / 2) (omega arith) (omega arith))

zero-and : (b : ℕ) → bit_and 0 b ≡ 0
zero-and b = bit_and-bitwise 0 b

pub zero-or : (b : ℕ) → bit_or 0 b ≡ b
zero-or b = bit_or-bitwise 0 b

and_step : (a b : ℕ) → bit_and a b ≡ bit_and (a / 2) (b / 2) * 2 + min (a % 2) (b % 2)
and_step zero b = omega (arith, zero-and b, zero-and (b / 2))
and_step (suc a) b = omega (
  arith,
  bit_and-bitwise (suc a) b,
  bit_and-bitwise (suc a / 2) (b / 2),
  and_fuel a (suc a / 2) (suc a / 2) (b / 2) (omega arith) (omega arith),
)

or_step : (a b : ℕ) → bit_or a b ≡ bit_or (a / 2) (b / 2) * 2 + max (a % 2) (b % 2)
or_step zero b = omega (arith, zero-or b, zero-or (b / 2))
or_step (suc a) b = omega (
  arith,
  bit_or-bitwise (suc a) b,
  bit_or-bitwise (suc a / 2) (b / 2),
  or_fuel a (suc a / 2) (suc a / 2) (b / 2) (omega arith) (omega arith),
)

and-zero_fuel : (n a : ℕ) → a ≤ n → bit_and a 0 ≡ 0
and-zero_fuel n zero h = refl
and-zero_fuel zero (suc a) h = absurd (omega arith)
and-zero_fuel (suc n) (suc a) h =
    omega (arith, and_step (suc a) 0, and-zero_fuel n (suc a / 2) (omega arith))

and-zero : (a : ℕ) → bit_and a 0 ≡ 0
and-zero a = and-zero_fuel a a (omega arith)

half : (a : ℕ) → a * 2 / 2 ≡ a
half a = omega arith

-- A mask of ones keeps the lowest digits.
pub and-ones : (k a : ℕ) → bit_and a (ones k) ≡ low k a
and-ones zero a = and-zero a
and-ones (suc k) a =
    and_step a (ones k * 2 + 1)
    ∙ ap (λ m. bit_and (a / 2) m * 2 + min (a % 2) ((ones k * 2 + 1) % 2)) half_odd
    ∙ omega (arith, and-ones k (a / 2))
  where
    half_odd : (ones k * 2 + 1) / 2 ≡ ones k
    half_odd = omega arith

-- Zeros at the end of a mask clear the lowest digits.
pub and-shl : (k a m : ℕ) → bit_and a (shl k m) ≡ shl k (bit_and (shr k a) m)
and-shl zero a m = refl
and-shl (suc k) a m =
    and_step a (shl k m * 2)
    ∙ ap (λ m'. bit_and (a / 2) m' * 2 + min (a % 2) (shl k m * 2 % 2)) (half (shl k m))
    ∙ omega (arith, and-shl k (a / 2) m)

-- A bitwise or with digits above those of `a` adds them.
pub or-shl : (k a m : ℕ) → shr k a ≡ 0 → bit_or a (shl k m) ≡ a + shl k m
or-shl zero a m h = ap (λ x. bit_or x m) h ∙ zero-or m ∙ omega (arith, h)
or-shl (suc k) a m h =
    or_step a (shl k m * 2)
    ∙ ap (λ m'. bit_or (a / 2) m' * 2 + max (a % 2) (shl k m * 2 % 2)) (half (shl k m))
    ∙ omega (arith, or-shl k (a / 2) m h)

-- The mask that clears the `k` lowest of 32 bits.
pub shl-add : (k a b : ℕ) → shl k a + shl k b ≡ shl k (a + b)
shl-add zero a b = refl
shl-add (suc k) a b = omega (arith, shl-add k a b)

pub ones-shl : (n : ℕ) → ones n + 1 ≡ shl n 1
ones-shl zero = refl
ones-shl (suc n) = omega (arith, ones-shl n)

pub shl-shl : (k n j a : ℕ) → k + n ≡ j → shl k (shl n a) ≡ shl j a
shl-shl zero n j a e = ap (λ i. shl i a) (omega arith)
shl-shl (suc k) n zero a e = absurd (omega arith)
shl-shl (suc k) n (suc j) a e = ap (λ x. x * 2) (shl-shl k n j a (omega arith))

pub low-all : (n a : ℕ) → a < shl n 1 → low n a ≡ a
low-all zero a h = omega arith
low-all (suc n) a h = omega (arith, low-all n (a / 2) (omega arith))

pub shr-lt : (k n j a : ℕ) → k + n ≡ j → a < shl j 1 → shr k a < shl n 1
shr-lt zero n j a e h = let e' : n ≡ j = omega arith in rw e' h
shr-lt (suc k) n zero a e h = absurd (omega arith)
shr-lt (suc k) n (suc j) a e h = shr-lt k n j (a / 2) (omega arith) (omega arith)

pub shl-pos : (k : ℕ) → 0 < shl k 1
shl-pos zero = omega arith
shl-pos (suc k) = omega (arith, shl-pos k)

pub shl-mul : (k a : ℕ) → shl k a ≡ a * shl k 1
shl-mul zero a = omega arith
shl-mul (suc k) a = grind (arith, shl-mul k a)

pub shl-shr : (k a : ℕ) → (shl k (shr k a) ≤ a) × (a < shl k (shr k a) + shl k 1)
shl-shr zero a = omega arith
shl-shr (suc k) a = let h = shl-shr k (a / 2) in omega (arith, h.0, h.1)

pub pow-shl : (k : ℕ) → 2 ^ k ≡ shl k 1
pow-shl zero = refl
pow-shl (suc k) = pow-suc 2 k ∙ ap (λ x. x * 2) (pow-shl k)

and-comm_fuel : (n a b : ℕ) → a ≤ n → bit_and a b ≡ bit_and b a
and-comm_fuel n zero b h = zero-and b ∙ sym (and-zero b)
and-comm_fuel zero (suc a) b h = absurd (omega arith)
and-comm_fuel (suc n) (suc a) b h = omega (
  arith,
  and_step (suc a) b,
  and_step b (suc a),
  and-comm_fuel n (suc a / 2) (b / 2) (omega arith),
)

pub and_comm : (a b : ℕ) → bit_and a b ≡ bit_and b a
and_comm a b = and-comm_fuel a a b (omega arith)

pub or_lt : (k a b : ℕ) → a < shl k 1 → b < shl k 1 → bit_or a b < shl k 1
or_lt zero a b h k = let e : a ≡ 0 = omega (arith, h) in rw e (omega (arith, zero-or b, k))
or_lt (suc n) a b h k =
    omega (arith, or_step a b, or_lt n (a / 2) (b / 2) (omega (arith, h)) (omega (arith, k)))

-- One more step of the digits.
or-again_step :
    (a b : ℕ)
    → bit_or (bit_or (a / 2) (b / 2)) (b / 2) ≡ bit_or (a / 2) (b / 2)
    → bit_or (bit_or a b) b ≡ bit_or a b
or-again_step a b h =
    let s = or_step a b in
    let half : bit_or a b / 2 ≡ bit_or (a / 2) (b / 2) = omega (arith, s) in
    let e = ap (λ x. bit_or x (b / 2)) half ∙ h in omega (arith, or_step (bit_or a b) b, s, e)

or-again_fuel : (n a b : ℕ) → a + b ≤ n → bit_or (bit_or a b) b ≡ bit_or a b
or-again_fuel zero a b h =
    let e : a ≡ 0 = omega arith in let f : b ≡ 0 = omega arith in rw (e, f) refl
or-again_fuel (suc n) a b h = or-again_step a b (or-again_fuel n (a / 2) (b / 2) (omega arith))

pub or_again : (a b : ℕ) → bit_or (bit_or a b) b ≡ bit_or a b
or_again a b = or-again_fuel (a + b) a b (omega arith)
