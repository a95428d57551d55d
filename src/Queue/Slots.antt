-- ===== src/Queue/Slots.antt =====
-- The slots of the ring and their bytes (src/queue.rs).
use int_os.Base.{
  usize_mod, ltb, ◌==◌, if◌then◌else◌, Bool-cases, ==→eq, ltb→lt, ℕ, zero, suc, ◌+◌, ◌-◌, ◌*◌, ◌%◌,
  ◌≤◌, ◌<◌, ◌≡◌, refl, ap, ◌∙◌, ◌≢◌, ◌⊎◌, inl, inr, true, false, arith,
}
use int_os.Queue.{advance}

-- The slot of an index below twice the length.
abbrev pub wrap : ℕ → ℕ → ℕ
wrap len i = if ltb i len then i else i - len

-- Of two slots the first ends before the second starts.
pub slot_before : (n s t : ℕ) → s < t → s * n + n ≤ t * n
slot_before n s zero h = absurd (omega arith)
slot_before n zero (suc t) h = omega arith
slot_before n (suc s) (suc t) h = omega (arith, slot_before n s t (omega arith))

pub slots_apart : (n s t b : ℕ) → s ≢ t → b < n → (s * n + b < t * n) ⊎ (t * n + n ≤ s * n + b)
slots_apart n s t b ne lt = elim (Bool-cases (ltb s t)) [
  | inl below ↦ inl (omega (arith, slot_before n s t (ltb→lt s t below)))
  | inr above ↦ inr (omega (arith, slot_before n t s (ground (arith, ne))))
]

-- Two indexes less than the length apart have two slots.
pub wrap_apart : (len r i k : ℕ) → r < len → i < k → k < len → wrap len (r + i) ≢ wrap len (r + k)
wrap_apart len r i k hr hi hk e = ground arith

-- The position behind a slot.
pub eq→== : (a b : ℕ) → a ≡ b → (a == b) ≡ true
eq→== a b e = ground arith

lt→ne : (a b : ℕ) → a < b → (a == b) ≡ false
lt→ne a b h = ground arith

pub advance-slot :
    (n len s : ℕ)
    → 0 < n
    → s < len
    → n * len < usize_mod
    → advance (n * len) (s * n) n ≡ (if suc s == len then 0 else suc s) * n
unfolding advance
advance-slot n len s pos h small = rw in_range (elim (Bool-cases (suc s == len)) [
  | inl hit ↦ rw (at_end (==→eq (suc s) len hit), hit) (omega arith)
  | inr miss ↦ rw (inner miss, miss) refl
])
  where
    room : s * n + n ≤ len * n
    room = slot_before n s len h

    in_range : (s * n + n) % usize_mod ≡ suc s * n
    in_range = omega (arith, room)

    at_end : suc s ≡ len → (suc s * n == n * len) ≡ true
    at_end e = eq→== _ _ (ap (λ k. k * n) e ∙ omega arith)

    inner : (suc s == len) ≡ false → (suc s * n == n * len) ≡ false
    inner miss = lt→ne _ _ (omega (arith, slot_before n (suc s) len (ground (arith, miss, h))))

pos→ne : (a : ℕ) → 0 < a → (a == 0) ≡ false
pos→ne a h = ground arith

-- The position before a slot.
pub back_of :
    (n len s : ℕ)
    → 0 < n
    → s < len
    → (if s * n == 0 then n * len - n else s * n - n) ≡ (if s == 0 then len - 1 else s - 1) * n
back_of n zero s pos h = absurd (omega arith)
back_of n (suc len) zero pos h =
    rw (eq→== (0 * n) 0 (omega arith)) (omega arith ∙ ap (λ k. k * n) (less len))
  where
    less : (k : ℕ) → k ≡ suc k - 1
    less k = omega arith
back_of n (suc len) (suc s) pos h =
    rw (pos→ne (suc s * n) (omega arith), pos→ne (suc s) (omega arith))
      (omega arith ∙ ap (λ k. k * n) (less s))
  where
    less : (k : ℕ) → k ≡ suc k - 1
    less k = omega arith
