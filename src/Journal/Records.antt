-- ===== src/Journal/Records.antt =====
-- The records in the log area, and the memory that they give back (src/pmem.rs, `Journal`).
use int_os.Base.{bit_and_mask, ℕ, ◌+◌, ◌^◌, ◌≤◌, ◌<◌, ◌≡◌, ◌∙◌, inl, List, [], ◌∷◌, arith, ◌-◌, ◌%◌}
use int_os.Journal.{
  Bytes, copy_nonoverlapping, arch_addr_align_up, record_sz, write_record, read_word, Journal,
  word_size, write_word,
}
use int_os.Journal.Copy.{read_word_same, read-write_word, write_word_out, copy_out, copy_in}

-- An object that was logged, with the bytes that it had.
pub record Entry : Type 0 where
  pub addr : ℕ
  pub size : ℕ
  pub bytes : Bytes

-- A record of `e` that starts at `at`.
pub record Holds (logs : Bytes) (at : ℕ) (e : Entry) : Type 0 where
  pub object : (i : ℕ) → i < e.size → logs (at + i) ≡ e.bytes i
  pub address : read_word logs (at + arch_addr_align_up e.size) ≡ e.addr
  pub sized : e.size < 4294967292
  pub length : read_word logs (at + arch_addr_align_up e.size + word_size) ≡ e.size

-- The log area below `tail` holds the records of `es`, the newest first.
abbrev pub Records : Bytes → List Entry → ℕ → Type 0
Records logs [] tail = tail ≡ 0
Records logs (e ∷ es) tail =
    (at : ℕ) × (tail ≡ at + record_sz e.size) × Holds logs at e × Records logs es at

-- The memory with the logged bytes put back, from the newest record to the oldest.
unfoldable pub undo : List Entry → Bytes → Bytes
unfolding copy_nonoverlapping
undo [] mem = mem
undo (e ∷ es) mem = undo es (copy_nonoverlapping e.size e.bytes 0 mem e.addr)

-- An object fits in its record, unless the sum in the alignment wraps around.
pub fits : (n : ℕ) → n < 4294967292 → n ≤ arch_addr_align_up n
unfolding arch_addr_align_up
fits n h = omega (arith, bit_and_mask ((n + 4 - 1) % 4294967296) (omega arith))

Holds-frame :
    {logs logs' : Bytes} (at : ℕ) (e : Entry)
    → ((a : ℕ) → a < at + record_sz e.size → logs' a ≡ logs a)
    → Holds logs at e
    → Holds logs' at e
unfolding record_sz
Holds-frame {logs} {logs'} at e same h = record {
  object = λ i lt. same (at + i) (omega (arith, fits e.size h.sized)) ∙ h.object i lt;
  sized = h.sized;
  address = read_word_same logs' logs _ (λ a lo hi. same a (omega arith)) ∙ h.address;
  length = read_word_same logs' logs _ (λ a lo hi. same a (omega arith)) ∙ h.length;
}

-- The records depend on the log area below the tail.
pub Records-frame :
    {logs logs' : Bytes} (es : List Entry) (tail : ℕ)
    → ((a : ℕ) → a < tail → logs' a ≡ logs a)
    → Records logs es tail
    → Records logs' es tail
Records-frame [] tail same r = r
Records-frame (e ∷ es) tail same (at, size, h, rest) = (
  at,
  size,
  Holds-frame at e (λ a lt. same a (omega (arith, size))) h,
  Records-frame es at (λ a lt. same a (omega (arith, size))) rest,
)

module _ (obj obj_sz : ℕ) (mem : Bytes) (j : Journal) where
  abbrev address_at : ℕ
  address_at = j.tail + arch_addr_align_up obj_sz

  abbrev copied : Bytes
  copied = copy_nonoverlapping obj_sz mem obj j.logs j.tail

  -- Below the address stands the copy.
  write_record_low : (a : ℕ) → a < address_at → write_record obj obj_sz mem j a ≡ copied a
  unfolding write_record
  write_record_low a lt =
      write_word_out (write_word copied address_at obj) (address_at + word_size) obj_sz a
        (inl (omega arith))
      ∙ write_word_out copied address_at obj a (inl lt)

  -- An appended record holds the object as the memory has it.
  pub write_record-Holds :
      obj < 2 ^ 32
      → obj_sz < 4294967292
      → Holds
          (write_record obj obj_sz mem j)
          j.tail
          (record { addr = obj; size = obj_sz; bytes = λ i. mem (obj + i) })
  unfolding write_record
  write_record-Holds small small' = record {
    sized = small';
    object = λ i lt.
        write_record_low (j.tail + i) (omega (arith, fits obj_sz small'))
        ∙ copy_in obj_sz mem obj j.logs j.tail i lt;
    address =
        read_word_same (write_record obj obj_sz mem j) (write_word copied address_at obj) address_at
          (λ a lo hi.
            write_word_out (write_word copied address_at obj) (address_at + word_size) obj_sz a
              (inl (omega arith)))
        ∙ read-write_word copied address_at obj small;
    length =
        read-write_word (write_word copied address_at obj) (address_at + word_size) obj_sz
          (omega arith);
  }

  -- It leaves the log area below the tail as it was.
  pub write_record_below : (a : ℕ) → a < j.tail → write_record obj obj_sz mem j a ≡ j.logs a
  write_record_below a lt =
      write_record_low a (omega arith) ∙ copy_out obj_sz mem obj j.logs j.tail a (inl lt)
