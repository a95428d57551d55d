-- ===== src/Base/Bits.antt =====
-- The word that a bitwise and with a mask of high bits leaves.
use Prim.Native.Nat.{
  ℕ, zero, suc, ◌+◌, ◌*◌, ◌/◌, ◌%◌, ◌^◌, ◌≤◌, ◌<◌, min, bit_and, digits, bit_and-bitwise,
}
use mathlib.Core.Path.{◌≡◌, refl, ◌∙◌, ap}
use native.Mathlib.Omega.{arith}

-- So many ones.
unfoldable ones : ℕ → ℕ
ones zero = 0
ones (suc k) = ones k * 2 + 1

under_ones : (n k a : ℕ) → a ≤ n → a ≤ ones k → digits (λ _. 0) min n a (ones k) ≡ a
unfolding ones
under_ones zero k a h small = omega arith
under_ones (suc n) k zero h small = refl
under_ones (suc n) zero (suc a) h small = absurd (omega arith)
under_ones (suc n) (suc k) (suc a) h small =
    ap (λ m. digits (λ _. 0) min n (suc a / 2) m * 2 + min (suc a % 2) ((ones k * 2 + 1) % 2)) half
    ∙ omega (arith, under_ones n k (suc a / 2) (omega arith) (omega arith))
  where
    half : (ones k * 2 + 1) / 2 ≡ ones k
    half = omega arith

-- A mask of ones and one zero clears the lowest bit, and with two zeros the lowest two.
one_zero :
    (n k a : ℕ) → a ≤ n → a ≤ ones k * 2 + 1 → digits (λ _. 0) min n a (ones k * 2) ≡ a / 2 * 2
one_zero zero k a h small = omega arith
one_zero (suc n) k zero h small = refl
one_zero (suc n) k (suc a) h small =
    ap (λ m. digits (λ _. 0) min n (suc a / 2) m * 2 + min (suc a % 2) (ones k * 2 % 2)) half
    ∙ omega (arith, under_ones n k (suc a / 2) (omega arith) (omega arith))
  where
    half : ones k * 2 / 2 ≡ ones k
    half = omega arith

two_zeros :
    (n k a : ℕ) → a ≤ n → a ≤ ones k * 4 + 3 → digits (λ _. 0) min n a (ones k * 2 * 2) ≡ a / 4 * 4
two_zeros zero k a h small = omega arith
two_zeros (suc n) k zero h small = refl
two_zeros (suc n) k (suc a) h small =
    ap (λ m. digits (λ _. 0) min n (suc a / 2) m * 2 + min (suc a % 2) (ones k * 2 * 2 % 2)) half
    ∙ omega (arith, one_zero n k (suc a / 2) (omega arith) (omega arith))
  where
    half : ones k * 2 * 2 / 2 ≡ ones k * 2
    half = omega arith

ones_at_30 : ones 30 ≡ 1073741823
unfolding ones
ones_at_30 = refl

-- The mask that clears the two lowest bits of a word of 32 bits.
pub bit_and_mask : (a : ℕ) → a < 2 ^ 32 → bit_and a 4294967292 ≡ a / 4 * 4
bit_and_mask a h =
    bit_and-bitwise a 4294967292
    ∙ ap (λ m. digits (λ _. 0) min a a m) (omega (arith, ones_at_30))
    ∙ two_zeros a 30 a (omega arith) (omega (arith, ones_at_30))
