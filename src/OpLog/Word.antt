-- ===== src/OpLog/Word.antt =====
-- The word that holds a micro operation and the old length of its list (src/list.rs,
-- `set_micro_op_old_len`, `get_micro_op`, `get_old_len`).
use Prim.Native.Nat.{bit_and, bit_or}
use int_os.Base.{
  false, not, if◌then◌else◌, ℕ, zero, suc, ◌*◌, ◌/◌, ◌^◌, ◌<◌, ◌≡◌, refl, ap, ◌∙◌, Bool, true, ◌&&◌,
  some, arith, ◌==◌, ==→eq,
}
use int_os.OpLog.{
  ListOpCode, ListTxOpLog, op_code, from_code, pack, set_micro_op_old_len, get_micro_op,
  get_old_len,
}

-- Whether a test fails at some number below a bound.
some_failure : (ℕ → Bool) → ℕ → Bool
some_failure test zero = false
some_failure test (suc k) = if test k then some_failure test k else true

no_failure :
    (test : ℕ → Bool) (bound n : ℕ) → n < bound → some_failure test bound ≡ false → test n ≡ true
unfolding some_failure
no_failure test zero n small fine = absurd (omega arith)
no_failure test (suc k) n small fine = ground (arith, no_failure test k n)

-- The high and the low bits of the word, for one opcode and length.
splits : ℕ → ℕ → Bool
splits c n = (bit_or (c * 2 ^ 12) n / 2 ^ 12 == c) && (bit_and (bit_or (c * 2 ^ 12) n) 0xfff == n)

splits_table : some_failure (λ c. not (some_failure (splits c) 4096)) 8 ≡ false
unfolding some_failure splits
splits_table = refl

splits_all : (c n : ℕ) → c < 8 → n < 4096 → splits c n ≡ true
splits_all c n hc hn =
    no_failure (splits c) 4096 n hn (not-true _ (no_failure _ 8 c hc splits_table))
  where
    not-true : (b : Bool) → not b ≡ true → b ≡ false
    not-true false h = refl
    not-true true h = cc

high_bits : (c n : ℕ) → splits c n ≡ true → bit_or (c * 2 ^ 12) n / 2 ^ 12 ≡ c
unfolding splits
high_bits c n h = ==→eq _ _ (ground arith)

low_bits : (c n : ℕ) → splits c n ≡ true → bit_and (bit_or (c * 2 ^ 12) n) 0xfff ≡ n
unfolding splits
low_bits c n h = ==→eq _ _ (ground arith)

op_code-lt : (op : ListOpCode) → op_code op < 8
unfolding op_code
op_code-lt ListOpCode.invalid = omega arith
op_code-lt _ = omega arith

from_code-op_code : (op : ListOpCode) → from_code (op_code op) ≡ some op
unfolding from_code op_code
from_code-op_code ListOpCode.invalid = refl
from_code-op_code _ = refl

pub get_old_len-set :
    (op : ListOpCode) (n : ℕ) (log : ListTxOpLog)
    → n < 4096
    → get_old_len (set_micro_op_old_len op n log) ≡ n
unfolding get_old_len set_micro_op_old_len pack
get_old_len-set op n log h = low_bits (op_code op) n (splits_all (op_code op) n (op_code-lt op) h)

pub get_micro_op-set :
    (op : ListOpCode) (n : ℕ) (log : ListTxOpLog)
    → n < 4096
    → get_micro_op (set_micro_op_old_len op n log) ≡ some op
unfolding get_micro_op set_micro_op_old_len pack
get_micro_op-set op n log h =
    ap from_code (high_bits (op_code op) n (splits_all (op_code op) n (op_code-lt op) h))
    ∙ from_code-op_code op

-- For each opcode and each length below 4096, the log gives back the opcode and the length that were
-- last stored in it.
pub set_micro_op_old_len-roundtrip :
    (op : ListOpCode) (n : ℕ) (log : ListTxOpLog)
    → n < 4096
    → (get_micro_op (set_micro_op_old_len op n log) ≡ some op)
      × (get_old_len (set_micro_op_old_len op n log) ≡ n)
set_micro_op_old_len-roundtrip op n log h =
    (get_micro_op-set op n log h, get_old_len-set op n log h)
