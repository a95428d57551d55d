-- ===== src/Transaction/Commit.antt =====
-- What the writes of a commit leave at any point (src/transaction.rs, `Transaction::commit`).
use int_os.Base.{
  ℕ, zero, suc, ◌+◌, ◌<◌, ◌≡◌, refl, ap, ◌∙◌, ◌⊎◌, inl, inr, arith, List, [], ◌∷◌, ◌++◌, ltb,
  Bool-cases, true, false, ◌%◌, usize_mod,
}
use Prim.Native.Nat.{bit_or}
use mathlib.Core.List.{append_assoc}
use int_os.Journal as Undo
use int_os.Journal.{Bytes}
use int_os.TxCache.{
  TxCache, tx_committed, advanced_tail, advance_composite_id, get_tx_cache_ptr_of_tail,
}
use int_os.TxCache.Fields.{composite, Tail, tail_at, tail_id, advance-composite}
use int_os.Transaction.{
  Machine, Write, perform, cut, put_byte, set_tail, set_ptr, clear_journal, copy_writes,
  commit_no_ret_value, cache_result, commit,
}
use int_os.Base.{or-top}

-- `P` holds wherever the power fails.
abbrev pub AllCuts : (Machine → Type 0) → List Write → Machine → Type 0
AllCuts P ws m = (k : ℕ) → P (cut k ws m)

module _ (P : Machine → Type 0) where
  pub AllCuts-cons :
      (w : Write) (ws : List Write) (m : Machine) → P m → AllCuts P ws (w m) → AllCuts P (w ∷ ws) m
  unfolding cut
  AllCuts-cons w ws m h rest zero = h
  AllCuts-cons w ws m h rest (suc k) = rest k

-- `i` bytes of `res` are copied to `at`, and all else is as in `base`.
pub record Copied (base : Machine) (res : Bytes) (at i : ℕ) (m : Machine) : Type 0 where
  pub mem : m.mem ≡ base.mem
  pub journal : m.journal ≡ base.journal
  pub tail : m.cache.tail ≡ base.cache.tail
  pub ptr : m.cache.ptr ≡ base.cache.ptr
  pub below : (a : ℕ) → a < at → m.cache.cache a ≡ base.cache.cache a
  pub bytes : (b : ℕ) → b < i → m.cache.cache (at + b) ≡ res b

module _ (base : Machine) (res : Bytes) (at : ℕ) where
  pub Copied-none : Copied base res at 0 base
  Copied-none = record {
    mem = refl;
    journal = refl;
    tail = refl;
    ptr = refl;
    below = λ a h. refl;
    bytes = λ b h. absurd (omega arith);
  }

  Copied-step :
      (i : ℕ) (m : Machine)
      → Copied base res at i m
      → Copied base res at (suc i) (put_byte (at + i) (res i) m)
  Copied-step i m c = record {
    mem = c.mem;
    journal = c.journal;
    tail = c.tail;
    ptr = c.ptr;
    below = λ a h. ground (arith, c.below a h);
    bytes = λ b h. ground (arith, c.bytes b);
  }

  -- Wherever the copy and the writes behind it stop.
  pub copy-AllCuts :
      (P : Machine → Type 0) (rest : List Write) (size : ℕ)
      → ((i : ℕ) (m : Machine) → Copied base res at i m → P m)
      → ((m : Machine) → Copied base res at size m → AllCuts P rest m)
      → (n i : ℕ) (m : Machine) → i + n ≡ size
      → Copied base res at i m
      → AllCuts P (copy_writes n i res at ++ rest) m
  unfolding copy_writes
  copy-AllCuts P rest size during behind zero i m e c =
      behind m (rw (← e) (let e' : i + 0 ≡ i = omega arith in rw e' c))
  copy-AllCuts P rest size during behind (suc n) i m e c =
      AllCuts-cons P (put_byte (at + i) (res i)) (copy_writes n (suc i) res at ++ rest) m
        (during i m c)
        (copy-AllCuts P rest size during behind n (suc i) (put_byte (at + i) (res i) m)
          (omega arith) (Copied-step i m c))

  pub copy-perform :
      (P : Machine → Type 0) (rest : List Write) (size : ℕ)
      → ((m : Machine) → Copied base res at size m → P (perform rest m))
      → (n i : ℕ) (m : Machine) → i + n ≡ size
      → Copied base res at i m
      → P (perform (copy_writes n i res at ++ rest) m)
  unfolding copy_writes perform
  copy-perform P rest size behind zero i m e c =
      behind m (rw (← e) (let e' : i + 0 ≡ i = omega arith in rw e' c))
  copy-perform P rest size behind (suc n) i m e c =
      copy-perform P rest size behind n (suc i) (put_byte (at + i) (res i) m) (omega arith)
        (Copied-step i m c)

-- What a commit of the `id`th transaction leaves where the power fails, with `at` bytes of results
-- before it: nothing has changed that a recovery reads, or the result is there.
pub record Uncommitted (base : Machine) (at : ℕ) (m : Machine) : Type 0 where
  pub mem : m.mem ≡ base.mem
  pub journal : m.journal ≡ base.journal
  pub tail : m.cache.tail ≡ base.cache.tail
  pub below : (a : ℕ) → a < at → m.cache.cache a ≡ base.cache.cache a

pub record Committed (base : Machine) (id at size : ℕ) (res : Bytes) (m : Machine) : Type 0 where
  pub mem : m.mem ≡ base.mem
  pub tail : m.cache.tail ≡ composite (id + 1) (at + size) + tx_committed
  pub below : (a : ℕ) → a < at → m.cache.cache a ≡ base.cache.cache a
  pub bytes : (b : ℕ) → b < size → m.cache.cache (at + b) ≡ res b

pub record Finished (base : Machine) (id at size : ℕ) (res : Bytes) (m : Machine) : Type 0 where
  pub committed : Committed base id at size res m
  pub ptr : m.cache.ptr ≡ composite (id + 1) (at + size)
  pub journal : m.journal.tail ≡ 0

abbrev pub Stopped : Machine → ℕ → ℕ → ℕ → Bytes → Machine → Type 0
Stopped base id at size res m = Uncommitted base at m ⊎ Committed base id at size res m

abbrev finish : ℕ → ℕ → List Write
finish t p = set_tail t ∷ set_ptr p ∷ clear_journal ∷ []

module _ (base : Machine) (id at size : ℕ) (res : Bytes) where
  Copied-Stopped : (i : ℕ) (m : Machine) → Copied base res at i m → Stopped base id at size res m
  Copied-Stopped i m c =
      inl (record { mem = c.mem; journal = c.journal; tail = c.tail; below = c.below })

  module _ (t p : ℕ) (t_is : t ≡ composite (id + 1) (at + size) + tx_committed) where
    finish-Committed :
        (m m' : Machine)
        → Copied base res at size m
        → m'.mem ≡ m.mem
        → m'.cache.cache ≡ m.cache.cache
        → m'.cache.tail ≡ t
        → Committed base id at size res m'
    finish-Committed m m' c em ec et = record {
      mem = em ∙ c.mem;
      tail = et ∙ t_is;
      below = λ a h. ap (λ f. f a) ec ∙ c.below a h;
      bytes = λ b h. ap (λ f. f (at + b)) ec ∙ c.bytes b h;
    }

    finish-AllCuts :
        (m : Machine)
        → Copied base res at size m
        → AllCuts (Stopped base id at size res) (finish t p) m
    unfolding cut
    finish-AllCuts m c zero = Copied-Stopped size m c
    finish-AllCuts m c (suc zero) = inr (finish-Committed m _ c refl refl refl)
    finish-AllCuts m c (suc (suc zero)) = inr (finish-Committed m _ c refl refl refl)
    finish-AllCuts m c (suc (suc (suc zero))) = inr (finish-Committed m _ c refl refl refl)
    finish-AllCuts m c (suc (suc (suc (suc k)))) = inr (finish-Committed m _ c refl refl refl)

    finish-Finished :
        (m : Machine)
        → p ≡ composite (id + 1) (at + size)
        → Copied base res at size m
        → Finished base id at size res (perform (finish t p) m)
    unfolding perform Undo.clear
    finish-Finished m e c = record {
      committed = finish-Committed m _ c refl refl refl;
      ptr = e;
      journal = refl;
    }

advanced :
    (c : TxCache) (id at size : ℕ)
    → id + 1 < 65536
    → at + size < 32768
    → Tail c.tail id at
    → advanced_tail size c ≡ composite (id + 1) (at + size)
unfolding advanced_tail
advanced c id at size few short t =
    ap (λ n. advance_composite_id n (get_tx_cache_ptr_of_tail c) size)
      (tail_id {id = id} {at = at} (omega arith) (omega arith) c t)
    ∙ ap (λ n. advance_composite_id id n size)
        (tail_at {id = id} {at = at} (omega arith) (omega arith) c t)
    ∙ advance-composite id at size few short

commit-some :
    (size : ℕ) (res : Bytes) (c : TxCache)
    → ltb 0 size ≡ true
    → commit size res c
      ≡ copy_writes size 0 res (get_tx_cache_ptr_of_tail c)
        ++ finish (bit_or (advanced_tail size c) tx_committed) (advanced_tail size c)
unfolding commit cache_result
commit-some size res c h =
    rw h (append_assoc (copy_writes size 0 res (get_tx_cache_ptr_of_tail c)) _ _)

commit-empty :
    (size : ℕ) (res : Bytes) (c : TxCache)
    → ltb 0 size ≡ false
    → commit size res c
      ≡ finish (bit_or ((c.tail + 1) % usize_mod) tx_committed) ((c.ptr + 1) % usize_mod)
unfolding commit cache_result commit_no_ret_value
commit-empty size res c h = rw h

-- The writes of a commit: wherever they stop, and at their end.
module _ (base : Machine) (id at size : ℕ) (res : Bytes) (few : id + 1 < 65536)
    (short : at + size < 32768) (t : base.cache.tail ≡ composite id at)
    (p : base.cache.ptr ≡ composite id at) where
  flagged :
      (n : ℕ)
      → n ≡ composite (id + 1) (at + size)
      → bit_or n tx_committed ≡ composite (id + 1) (at + size) + tx_committed
  flagged n e = or-top n (omega (arith, e)) ∙ omega (arith, e)

  pub commit-Stopped : AllCuts (Stopped base id at size res) (commit size res base.cache) base
  commit-Stopped k = elim (Bool-cases (ltb 0 size)) [
    | inl some ↦ rw (commit-some size res base.cache some) (
        rw (tail_at {id = id} {at = at} (omega arith) (omega arith) base.cache (inl t)) (
          copy-AllCuts base res at (Stopped base id at size res) _ size
            (Copied-Stopped base id at size res)
            (finish-AllCuts base id at size res _ _
              (flagged _ (advanced base.cache id at size few short (inl t))))
            size 0 base (omega arith) (Copied-none base res at) k))
    | inr empty ↦ rw (commit-empty size res base.cache empty) (
        finish-AllCuts base id at size res _ _ (flagged _ (ground (arith, t))) base (ground arith)
          k)
  ]

  pub commit-Finished : Finished base id at size res (perform (commit size res base.cache) base)
  commit-Finished = elim (Bool-cases (ltb 0 size)) [
    | inl some ↦ rw (commit-some size res base.cache some) (
        rw (tail_at {id = id} {at = at} (omega arith) (omega arith) base.cache (inl t)) (
          copy-perform base res at (Finished base id at size res) _ size
            (λ m c.
              finish-Finished base id at size res _ _
                (flagged _ (advanced base.cache id at size few short (inl t))) m
                (advanced base.cache id at size few short (inl t)) c)
            size 0 base (omega arith) (Copied-none base res at)))
    | inr empty ↦ rw (commit-empty size res base.cache empty) (
        finish-Finished base id at size res _ _ (flagged _ (ground (arith, t))) base
          (ground (arith, p)) (ground arith))
  ]
