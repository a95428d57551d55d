-- ===== src/Journal/Copy.antt =====
-- What copies and words leave in a memory (src/pmem.rs, `Journal`).
use int_os.Base.{
  ltb, ◌==◌, Bool-cases, ==→eq, update_self, update_ne, ℕ, zero, suc, ◌+◌, ◌-◌, ◌^◌, ◌≤◌, ◌<◌, ◌≡◌,
  refl, ◌∙◌, ◌⊎◌, inl, inr, arith, update, fun_ext, sym, ap,
}
use int_os.Journal.{copy_nonoverlapping, read_word, write_word, Bytes}

-- The bytes of a copy.
pub copy_in :
    (n : ℕ) (src : Bytes) (from : ℕ) (dst : Bytes) (to i : ℕ)
    → i < n
    → copy_nonoverlapping n src from dst to (to + i) ≡ src (from + i)
unfolding copy_nonoverlapping
copy_in zero src from dst to i h = absurd (omega arith)
copy_in (suc n) src from dst to i h = elim (Bool-cases (i == n)) [
  | inl hit ↦
      let e = ==→eq i n hit in
      rw e (update_self (copy_nonoverlapping n src from dst to) (to + n) (src (from + n)))
  | inr miss ↦
      update_ne (copy_nonoverlapping n src from dst to) (to + n) (to + i) (src (from + n))
        (ground arith)
      ∙ copy_in n src from dst to i (ground arith)
]

-- The bytes beside it.
pub copy_out :
    (n : ℕ) (src : Bytes) (from : ℕ) (dst : Bytes) (to a : ℕ)
    → (a < to) ⊎ (to + n ≤ a)
    → copy_nonoverlapping n src from dst to a ≡ dst a
unfolding copy_nonoverlapping
copy_out zero src from dst to a h = refl
copy_out (suc n) src from dst to a h =
    update_ne (copy_nonoverlapping n src from dst to) (to + n) a (src (from + n)) (ground arith)
    ∙ copy_out n src from dst to a (ground arith)

-- Whether an address lies in an object.
pub inside : (to n a : ℕ) → ((i : ℕ) × (i < n) × (a ≡ to + i)) ⊎ ((a < to) ⊎ (to + n ≤ a))
inside to n a = elim (Bool-cases (ltb a to)) [
  | inl below ↦ inr (inl (ground arith))
  | inr above ↦ elim (Bool-cases (ltb a (to + n))) [
    | inl lt ↦ inl (a - to, ground arith, ground arith)
    | inr ge ↦ inr (inr (ground arith))
  ]
]

-- A word is read as it was written.
pub read-write_word : (f : Bytes) (at w : ℕ) → w < 2 ^ 32 → read_word (write_word f at w) at ≡ w
unfolding read_word write_word
read-write_word f at w h = ground arith

-- A write of a word beside the bytes that are read.
pub write_word_out : (f : Bytes) (at w a : ℕ) → (a < at) ⊎ (at + 4 ≤ a) → write_word f at w a ≡ f a
unfolding write_word
write_word_out f at w a h = ground arith

pub read_word_same :
    (f g : Bytes) (at : ℕ)
    → ((a : ℕ) → at ≤ a → a < at + 4 → f a ≡ g a)
    → read_word f at ≡ read_word g at
unfolding read_word
read_word_same f g at h = omega (
  arith,
  h at (omega arith) (omega arith),
  h (at + 1) (omega arith) (omega arith),
  h (at + 2) (omega arith) (omega arith),
  h (at + 3) (omega arith) (omega arith),
)

-- A copy hides a write in its range.
pub copy_over :
    (n : ℕ) (src : Bytes) (from : ℕ) (mem : Bytes) (to b v : ℕ)
    → to ≤ b
    → b < to + n
    → copy_nonoverlapping n src from (update mem b v) to ≡ copy_nonoverlapping n src from mem to
copy_over n src from mem to b v lo hi = fun_ext λ a. elim (inside to n a) [
  | inl hit ↦ rw hit.2 (
      copy_in n src from (update mem b v) to hit.0 hit.1
      ∙ sym (copy_in n src from mem to hit.0 hit.1))
  | inr out ↦
      copy_out n src from (update mem b v) to a out
      ∙ update_ne mem b a v (ground arith)
      ∙ sym (copy_out n src from mem to a out)
]

-- Beside its range it does not.
pub copy_beside :
    (n : ℕ) (src : Bytes) (from : ℕ) (mem : Bytes) (to b v : ℕ)
    → (b < to) ⊎ (to + n ≤ b)
    → copy_nonoverlapping n src from (update mem b v) to
      ≡ update (copy_nonoverlapping n src from mem to) b v
copy_beside n src from mem to b v beside = fun_ext λ a. elim (inside to n a) [
  | inl hit ↦ rw hit.2 (
      copy_in n src from (update mem b v) to hit.0 hit.1
      ∙ sym (
          update_ne (copy_nonoverlapping n src from mem to) b (to + hit.0) v (ground arith)
          ∙ copy_in n src from mem to hit.0 hit.1))
  | inr out ↦
      copy_out n src from (update mem b v) to a out
      ∙ ground (arith, copy_out n src from mem to a out)
]

-- A copy of the same bytes.
pub copy_same :
    (n : ℕ) (src src' : Bytes) (from from' : ℕ) (mem : Bytes) (to : ℕ)
    → ((i : ℕ) → i < n → src (from + i) ≡ src' (from' + i))
    → copy_nonoverlapping n src from mem to ≡ copy_nonoverlapping n src' from' mem to
copy_same n src src' from from' mem to same = fun_ext λ a. elim (inside to n a) [
  | inl hit ↦ rw hit.2 (
      copy_in n src from mem to hit.0 hit.1
      ∙ same hit.0 hit.1
      ∙ sym (copy_in n src' from' mem to hit.0 hit.1))
  | inr out ↦ copy_out n src from mem to a out ∙ sym (copy_out n src' from' mem to a out)
]

-- An object copied to its own place.
pub copy_self :
    (n : ℕ) (mem : Bytes) (obj : ℕ) → copy_nonoverlapping n (λ i. mem (obj + i)) 0 mem obj ≡ mem
copy_self n mem obj = fun_ext λ a. elim (inside obj n a) [
  | inl hit ↦
      rw hit.2 (
        copy_in n (λ i. mem (obj + i)) 0 mem obj hit.0 hit.1
        ∙ ap (λ i. mem (obj + i)) (omega arith))
  | inr out ↦ copy_out n (λ i. mem (obj + i)) 0 mem obj a out
]
