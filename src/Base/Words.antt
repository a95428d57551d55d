-- ===== src/Base/Words.antt =====
-- The masks of a word of 32 bits: its halves, its highest bit, the control byte of an event group, and
-- the alignments.
use Prim.Native.Nat.{ℕ, ◌+◌, ◌-◌, ◌*◌, ◌/◌, ◌%◌, ◌^◌, ◌≤◌, ◌<◌, bit_and, bit_or}
use mathlib.Core.Path.{◌≡◌, refl, ◌∙◌, ap, sym}
use native.Mathlib.Omega.{arith}
use int_os.Base.Masks.{
  and-ones, and-shl, or-shl, ones, shl, shr, shl-add, ones-shl, shl-shl, low-all, shr-lt, shl-pos,
  shl-mul, shl-shr, pow-shl, or_lt,
}

-- The masks of a word of 32 bits: the lower half, the upper half without the highest bit, all but the
-- highest bit, and the highest bit.
pub and-low_half : (a : ℕ) → bit_and a 65535 ≡ a % 65536
and-low_half a = and-ones 16 a ∙ omega arith

pub and-below_top : (a : ℕ) → bit_and a 2147483647 ≡ a % 2147483648
and-below_top a = and-ones 31 a ∙ omega arith

pub and-top : (a : ℕ) → bit_and a 2147483648 ≡ a / 2147483648 % 2 * 2147483648
and-top a = and-shl 31 a 1 ∙ omega (arith, and-ones 1 (shr 31 a))

pub and-upper_half : (a : ℕ) → bit_and a 2147418112 ≡ a / 65536 % 32768 * 65536
and-upper_half a = and-shl 16 a 32767 ∙ omega (arith, and-ones 15 (shr 16 a))

pub or-upper_half : (a b : ℕ) → a < 65536 → bit_or a (b * 65536) ≡ a + b * 65536
or-upper_half a b h = ap (bit_or a) (omega arith) ∙ or-shl 16 a b (omega arith) ∙ omega arith

pub or-top : (a : ℕ) → a < 2147483648 → bit_or a 2147483648 ≡ a + 2147483648
or-top a h = or-shl 31 a 1 (omega arith)

clear-mask : (k n : ℕ) → k + n ≡ 32 → 4294967296 - 2 ^ k ≡ shl k (ones n)
clear-mask k n e =
    let whole : shl 32 1 ≡ 4294967296 = refl in
    omega
      (arith, shl-add k (ones n) 1, ap (shl k) (ones-shl n), shl-shl k n 32 1 e, pow-shl k, whole)

and-clear_eq :
    (k n a : ℕ) → k + n ≡ 32 → a < 4294967296 → bit_and a (4294967296 - 2 ^ k) ≡ shl k (shr k a)
and-clear_eq k n a e h =
    ap (bit_and a) (clear-mask k n e)
    ∙ and-shl k a (ones n)
    ∙ ap (shl k) (and-ones n (shr k a) ∙ low-all n (shr k a) (shr-lt k n 32 a e h))

pub pow-pos : (k : ℕ) → 0 < 2 ^ k
pow-pos k = omega (arith, pow-shl k, shl-pos k)

-- Such a mask rounds down to a multiple of the power of two.
pub and-clear :
    (k a : ℕ)
    → k < 32
    → a < 4294967296
    → (q : ℕ) × (bit_and a (4294967296 - 2 ^ k) ≡ q * 2 ^ k)
      × (q * 2 ^ k ≤ a)
      × (a < q * 2 ^ k + 2 ^ k)
and-clear k a hk ha =
    let e = and-clear_eq k (32 - k) a (omega arith) ha in
    let m = shl-mul k (shr k a) in
    let b = shl-shr k a in
    let p : shr k a * shl k 1 ≡ shr k a * 2 ^ k = ap (λ x. shr k a * x) (sym (pow-shl k)) in
    (shr k a, e ∙ m ∙ p, omega (arith, b.0, m, p), omega (arith, b.1, m, p, pow-shl k))

-- The control byte of a word, and the bits below it.
pub and-below_byte : (a : ℕ) → bit_and a 16777215 ≡ a % 16777216
and-below_byte a = and-ones 24 a ∙ omega arith

pub and-bit_24 : (a : ℕ) → bit_and a 16777216 ≡ a / 16777216 % 2 * 16777216
and-bit_24 a = and-shl 24 a 1 ∙ omega (arith, and-ones 1 (shr 24 a))

pub and-bit_25 : (a : ℕ) → bit_and a 33554432 ≡ a / 33554432 % 2 * 33554432
and-bit_25 a = and-shl 25 a 1 ∙ omega (arith, and-ones 1 (shr 25 a))

pub and-bit_26 : (a : ℕ) → bit_and a 67108864 ≡ a / 67108864 % 2 * 67108864
and-bit_26 a = and-shl 26 a 1 ∙ omega (arith, and-ones 1 (shr 26 a))

pub or-byte : (a c : ℕ) → a < 16777216 → bit_or a (c * 16777216) ≡ a + c * 16777216
or-byte a c h = ap (bit_or a) (omega arith) ∙ or-shl 24 a c (omega arith) ∙ omega arith

pub or-below_byte : (a b : ℕ) → a < 16777216 → b < 16777216 → bit_or a b < 16777216
or-below_byte a b h k = or_lt 24 a b (omega (arith, h)) (omega (arith, k))

pub and-all : (a : ℕ) → a < 4294967296 → bit_and a 4294967295 ≡ a
and-all a h = and-ones 32 a ∙ low-all 32 a (omega (arith, h))

pub or-bit_26 : (a : ℕ) → a < 67108864 → bit_or a 67108864 ≡ a + 67108864
or-bit_26 a h = or-shl 26 a 1 (omega (arith, h))
