-- ===== src/Journal.antt =====
-- The undo journal of a transaction, src/pmem.rs (`Journal`), on a machine of 32 bits. The memory is
-- a byte for each address, and the log area a byte for each offset. The journal is not part of the
-- memory that it logs.
pub mod Copy
pub mod Records
pub mod Undo
use Prim.Native.Nat.{bit_and}
use int_os.Base.{
  usize_mod, if◌then◌else◌, ℕ, zero, suc, ◌+◌, ◌/◌, update, ◌*◌, Bool, Option, ◌%◌, ◌==◌, some,
  none, ◌-◌, leb,
}

abbrev pub Bytes : Type 0
Bytes = ℕ → ℕ

pub record Journal : Type 0 where
  pub magic_header : ℕ
  pub tail : ℕ
  pub logs : Bytes
  pub magic_footer : ℕ

abbrev pub journal_magic : ℕ
journal_magic = 0xABCD

abbrev pub word_size : ℕ
word_size = 4

-- `!(ARCH_ALIGN - 1)` is the mask of the other bits, with `ARCH_ALIGN` the size of a word.
unfoldable pub arch_addr_align_up : ℕ → ℕ
arch_addr_align_up addr =
    bit_and ((addr + word_size - 1) % usize_mod) (usize_mod - 1 - (word_size - 1))

-- `copy_nonoverlapping` of `n` bytes from `from` of `src` to `to` of `dst`.
unfoldable pub copy_nonoverlapping : ℕ → Bytes → ℕ → Bytes → ℕ → Bytes
copy_nonoverlapping zero src from dst to = dst
copy_nonoverlapping (suc n) src from dst to =
    update (copy_nonoverlapping n src from dst to) (to + n) (src (from + n))

-- A word in four bytes, the lowest first.
unfoldable pub write_word : Bytes → ℕ → ℕ → Bytes
write_word f at w =
    update
      (update (update (update f at (w % 256)) (at + 1) (w / 256 % 256)) (at + 2) (w / 65536 % 256))
      (at + 3) (w / 16777216 % 256)

unfoldable pub read_word : Bytes → ℕ → ℕ
read_word f at = f at + f (at + 1) * 256 + f (at + 2) * 65536 + f (at + 3) * 16777216

unfoldable pub record_sz : ℕ → ℕ
unfolding arch_addr_align_up
record_sz obj_sz = arch_addr_align_up obj_sz + word_size + word_size

unfoldable pub init : Journal → Journal
init j = record j { magic_header = journal_magic; tail = 0; magic_footer = journal_magic }

unfoldable pub clear : Journal → Journal
clear j = record j { tail = 0 }

unfoldable pub is_empty : Journal → Bool
is_empty j = j.tail == 0

-- The object, its address and its size, written into the log area.
unfoldable pub write_record : ℕ → ℕ → Bytes → Journal → Bytes
unfolding copy_nonoverlapping write_word arch_addr_align_up
write_record obj obj_sz mem j =
    let at = j.tail + arch_addr_align_up obj_sz in
    write_word (write_word (copy_nonoverlapping obj_sz mem obj j.logs j.tail) at obj)
      (at + word_size) obj_sz

-- `append_log_of` the object of `obj_sz` bytes at `obj`, with `journal_size` bytes for the logs:
-- `none` where the assertion fails.
unfoldable pub append_log_of : ℕ → ℕ → ℕ → Bytes → Journal → Option Journal
unfolding write_record record_sz
append_log_of journal_size obj obj_sz mem j =
    if leb (j.tail + record_sz obj_sz) journal_size
    then some (record j { logs = write_record obj obj_sz mem j; tail = j.tail + record_sz obj_sz })
    else none

-- `while ptr > 0`, with one unit of fuel for each record: `none` where the last assertion fails or
-- `ptr` goes below 0, and where the fuel does not last.
unfoldable pub recover_from : ℕ → ℕ → Bytes → Bytes → Option Bytes
unfolding read_word record_sz copy_nonoverlapping arch_addr_align_up
recover_from fuel zero logs mem = some mem
recover_from zero (suc k) logs mem = none
recover_from (suc fuel) (suc k) logs mem =
    let ptr = suc k in
    let size = read_word logs (ptr - word_size) in
    let object_addr = read_word logs (ptr - word_size * 2) in
    let object_log_addr = ptr - word_size * 2 - arch_addr_align_up size in
    let mem' = copy_nonoverlapping size logs object_log_addr mem object_addr in
    let rest = recover_from fuel (ptr - record_sz size) logs mem' in
    if leb (record_sz size) ptr then rest else none

-- The memory and the journal after the recovery.
unfoldable pub recover : Bytes → Journal → Option (Bytes × Journal)
unfolding recover_from clear
recover mem j = elim (recover_from j.tail j.tail j.logs mem) [
  | none ↦ none
  | some mem' ↦ some (mem', clear j)
]
