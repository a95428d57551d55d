-- ===== src/Journal/Undo.antt =====
-- The recovery of a transaction that the power failure stopped (src/pmem.rs, `Journal::recover`).
use int_os.Base.{
  ltb, leb, update, ℕ, zero, suc, ◌+◌, ◌-◌, ◌*◌, ◌^◌, ◌≤◌, ◌<◌, ◌≡◌, refl, ap, ◌∙◌, inl, inr, Bool,
  true, false, ◌&&◌, ◌||◌, none, some, List, [], ◌∷◌, arith, taken,
}
use int_os.Journal.Records.{
  Entry, undo, Records, Records-frame, write_record-Holds, write_record_below,
}
use int_os.Journal.{
  Bytes, copy_nonoverlapping, recover_from, read_word, word_size, record_sz, arch_addr_align_up,
  Journal, append_log_of, recover, is_empty, clear, write_record,
}
use int_os.Journal.Copy.{inside, copy_over, copy_same, copy_beside, copy_self}
use mathlib.Core.Path.{subst}

-- Whether an address lies in an object that was logged.
abbrev pub covers : List Entry → ℕ → Bool
covers [] a = false
covers (e ∷ es) a = (leb e.addr a && ltb a (e.addr + e.size)) || covers es a

-- A write to a logged byte is undone.
undo-update :
    (es : List Entry) (mem : Bytes) (b v : ℕ)
    → covers es b ≡ true
    → undo es (update mem b v) ≡ undo es mem
unfolding undo copy_nonoverlapping
undo-update [] mem b v h = cc
undo-update (e ∷ es) mem b v h = elim (inside e.addr e.size b) [
  | inl hit ↦ ap (undo es) (
      copy_over e.size e.bytes 0 mem e.addr b v (omega (arith, hit.2, hit.1))
        (omega (arith, hit.2, hit.1)))
  | inr out ↦
      ap (undo es) (copy_beside e.size e.bytes 0 mem e.addr b v out)
      ∙ undo-update es (copy_nonoverlapping e.size e.bytes 0 mem e.addr) b v (ground arith)
]

-- One pass of the loop, at a record of `size` bytes for the object at `addr`.
recover_step :
    (fuel k : ℕ) (logs mem : Bytes) (size addr : ℕ)
    → read_word logs (suc k - word_size) ≡ size
    → read_word logs (suc k - word_size * 2) ≡ addr
    → leb (record_sz size) (suc k) ≡ true
    → recover_from (suc fuel) (suc k) logs mem
      ≡ recover_from fuel
          (suc k - record_sz size)
          logs
          (copy_nonoverlapping size logs (suc k - word_size * 2 - arch_addr_align_up size) mem addr)
unfolding recover_from
recover_step fuel k logs mem size addr es ea le = rw (es, ea, le)

recover_done : (fuel : ℕ) (logs mem : Bytes) → recover_from fuel 0 logs mem ≡ some mem
unfolding recover_from
recover_done zero logs mem = refl
recover_done (suc fuel) logs mem = refl

record_sz_positive : (n : ℕ) → 8 ≤ record_sz n
unfolding record_sz
record_sz_positive n = omega arith

record_sz_parts : (n : ℕ) → record_sz n ≡ arch_addr_align_up n + word_size + word_size
unfolding record_sz
record_sz_parts n = refl

-- The loop ends with fuel for the bytes of the log, and undoes the records.
recover_from-undo :
    (fuel tail : ℕ) (logs mem : Bytes) (es : List Entry)
    → Records logs es tail
    → tail ≤ fuel
    → recover_from fuel tail logs mem ≡ some (undo es mem)
unfolding undo copy_nonoverlapping
recover_from-undo fuel tail logs mem [] r h = rw r (recover_done fuel logs mem)
recover_from-undo fuel zero logs mem (e ∷ es) (at, size, h, rest) le =
    absurd (omega (arith, size, record_sz_positive e.size))
recover_from-undo zero (suc k) logs mem (e ∷ es) r le = absurd (omega arith)
recover_from-undo (suc fuel) (suc k) logs mem (e ∷ es) (at, size, h, rest) le =
    recover_step fuel k logs mem e.size e.addr (ap (read_word logs) size_at ∙ h.length)
      (ap (read_word logs) address_at ∙ h.address) (ground (arith, size))
    ∙ ap
        (λ o. recover_from fuel o logs (
          copy_nonoverlapping e.size logs (suc k - word_size * 2 - arch_addr_align_up e.size) mem
            e.addr))
        (omega (arith, size))
    ∙ ap (λ f. recover_from fuel at logs f)
        (copy_same e.size logs e.bytes _ 0 mem e.addr (λ i lt.
          ap logs (omega (arith, size, record_sz_parts e.size))
          ∙ h.object i lt
          ∙ ap e.bytes (omega arith)))
    ∙ recover_from-undo fuel at logs _ es rest (omega (arith, size, record_sz_positive e.size))
  where
    size_at : suc k - word_size ≡ at + arch_addr_align_up e.size + word_size
    size_at = omega (arith, size, record_sz_parts e.size)

    address_at : suc k - word_size * 2 ≡ at + arch_addr_align_up e.size
    address_at = omega (arith, size, record_sz_parts e.size)

-- What a transaction may reach: it logs objects, a failure tears a record that is being written, and
-- it writes to the objects that it logged. `es` is what was logged.
pub data Tx (journal_size : ℕ) (mem₀ : Bytes) : List Entry → Bytes → Journal → Type 0 where
  begun : {j : Journal} → j.tail ≡ 0 → Tx journal_size mem₀ [] mem₀ j
  logged :
      {es : List Entry} {mem : Bytes} {j j' : Journal} (obj obj_sz : ℕ)
      → Tx journal_size mem₀ es mem j
      → obj < 2 ^ 32
      → obj_sz < 4294967292
      → append_log_of journal_size obj obj_sz mem j ≡ some j'
      → Tx journal_size mem₀
          (record { addr = obj; size = obj_sz; bytes = λ i. mem (obj + i) } ∷ es)
          mem
          j'
  torn :
      {es : List Entry} {mem : Bytes} {j : Journal} (logs : Bytes)
      → Tx journal_size mem₀ es mem j
      → ((a : ℕ) → a < j.tail → logs a ≡ j.logs a)
      → Tx journal_size mem₀ es mem (record j { logs = logs })
  wrote :
      {es : List Entry} {mem : Bytes} {j : Journal} (b v : ℕ)
      → Tx journal_size mem₀ es mem j
      → covers es b ≡ true
      → Tx journal_size mem₀ es (update mem b v) j

appended :
    (journal_size obj obj_sz : ℕ) (mem : Bytes) (j j' : Journal)
    → append_log_of journal_size obj obj_sz mem j ≡ some j'
    → record j { logs = write_record obj obj_sz mem j; tail = j.tail + record_sz obj_sz } ≡ j'
unfolding append_log_of
appended journal_size obj obj_sz mem j j' e =
    taken (leb (j.tail + record_sz obj_sz) journal_size) _ j' e

logged-Records :
    (obj obj_sz : ℕ) (mem : Bytes) (es : List Entry) (j : Journal)
    → Records j.logs es j.tail
    → obj < 2 ^ 32
    → obj_sz < 4294967292
    → Records
        (write_record obj obj_sz mem j)
        (record { addr = obj; size = obj_sz; bytes = λ i. mem (obj + i) } ∷ es)
        (j.tail + record_sz obj_sz)
logged-Records obj obj_sz mem es j r small small' = (
  j.tail,
  refl,
  write_record-Holds obj obj_sz mem j small small',
  Records-frame es j.tail (write_record_below obj obj_sz mem j) r,
)

Tx-Records :
    {journal_size : ℕ} {mem₀ : Bytes} {es : List Entry} {mem : Bytes} {j : Journal}
    → Tx journal_size mem₀ es mem j
    → Records j.logs es j.tail
Tx-Records (begun e) = e
Tx-Records {journal_size} (logged {es} {mem} {j} {j'} obj obj_sz t small small' e) =
    subst
      (λ k.
        Records k.logs (record { addr = obj; size = obj_sz; bytes = λ i. mem (obj + i) } ∷ es)
          k.tail)
      (appended journal_size obj obj_sz mem j j' e)
      (logged-Records obj obj_sz mem es j (Tx-Records t) small small')
Tx-Records (torn {es} {j = j} logs t same) = Records-frame es j.tail same (Tx-Records t)
Tx-Records (wrote b v t h) = Tx-Records t

Tx-undo :
    {journal_size : ℕ} {mem₀ : Bytes} {es : List Entry} {mem : Bytes} {j : Journal}
    → Tx journal_size mem₀ es mem j
    → undo es mem ≡ mem₀
unfolding undo copy_nonoverlapping
Tx-undo (begun e) = refl
Tx-undo (logged {es} {mem} obj obj_sz t small small' e) =
    ap (undo es) (copy_self obj_sz mem obj) ∙ Tx-undo t
Tx-undo (torn logs t same) = Tx-undo t
Tx-undo (wrote {es} {mem} b v t h) = undo-update es mem b v h ∙ Tx-undo t

recover-run :
    (mem mem' : Bytes) (j : Journal)
    → recover_from j.tail j.tail j.logs mem ≡ some mem'
    → recover mem j ≡ some (mem', clear j)
unfolding recover recover_from clear
recover-run mem mem' j e =
    ap (λ o. elim o [ none ↦ none | some m ↦ some (m, record j { tail = 0 }) ]) e

-- At whatever point the power fails in a transaction, that is behind any objects logged, any writes
-- to them and any part of a further record, the recovery gives back the memory from before the
-- transaction, byte for byte, and an empty journal. The objects have addresses below 2 ^ 32 and sizes
-- below 2 ^ 32 - 4, and the recovery does not fail.
pub recover-restores :
    {journal_size : ℕ} {mem₀ : Bytes} {es : List Entry} {mem : Bytes} {j : Journal}
    → Tx journal_size mem₀ es mem j
    → (recover mem j ≡ some (mem₀, clear j)) × (is_empty (clear j) ≡ true)
unfolding is_empty clear
recover-restores {es = es} {mem = mem} {j = j} t = (
  recover-run mem _ j (
      recover_from-undo j.tail j.tail j.logs mem es (Tx-Records t) (omega arith)
      ∙ ap some (Tx-undo t)),
  refl,
)
