-- ===== src/TxCache/Fields.antt =====
-- The fields of the tail and of the pointer (src/transaction.rs, `TxCache`).
use Prim.Native.Nat.{bit_or}
use int_os.Base.{
  ℕ, ◌+◌, ◌*◌, ◌%◌, ◌<◌, ◌≡◌, ap, ◌∙◌, ◌⊎◌, inl, inr, arith, true, false, usize_mod, and-low_half,
  and-below_top, and-top, and-upper_half, or-upper_half,
}
use int_os.TxCache.{
  TxCache, is_committed, clear_commit_flag, get_tx_id_of_tail, get_tx_cache_ptr_of_tail,
  get_tx_id_of_ptr, get_tx_cache_ptr_of_ptr, advance_composite_id, tx_committed,
}

-- A composite number: `id` transactions whose results have `at` bytes.
abbrev pub composite : ℕ → ℕ → ℕ
composite id at = id + at * 65536

-- The composite number without or with the commit flag.
abbrev pub Tail : ℕ → ℕ → ℕ → Type 0
Tail tail id at = (tail ≡ composite id at) ⊎ (tail ≡ composite id at + tx_committed)

module _ {id at : ℕ} (few : id < 65536) (short : at < 32768) where
  pub tail_id : (c : TxCache) → Tail c.tail id at → get_tx_id_of_tail c ≡ id
  unfolding get_tx_id_of_tail
  tail_id c (inl e) = and-low_half c.tail ∙ omega (arith, e)
  tail_id c (inr e) = and-low_half c.tail ∙ omega (arith, e)

  pub tail_at : (c : TxCache) → Tail c.tail id at → get_tx_cache_ptr_of_tail c ≡ at
  unfolding get_tx_cache_ptr_of_tail
  tail_at c (inl e) = omega (arith, and-upper_half c.tail, e)
  tail_at c (inr e) = omega (arith, and-upper_half c.tail, e)

  pub ptr_id : (c : TxCache) → c.ptr ≡ composite id at → get_tx_id_of_ptr c ≡ id
  unfolding get_tx_id_of_ptr
  ptr_id c e = and-low_half c.ptr ∙ omega (arith, e)

  pub ptr_at : (c : TxCache) → c.ptr ≡ composite id at → get_tx_cache_ptr_of_ptr c ≡ at
  unfolding get_tx_cache_ptr_of_ptr
  ptr_at c e = omega (arith, and-upper_half c.ptr, e)

  pub clear-tail : (c : TxCache) → Tail c.tail id at → (clear_commit_flag c).tail ≡ composite id at
  unfolding clear_commit_flag
  clear-tail c (inl e) = and-below_top c.tail ∙ omega (arith, e)
  clear-tail c (inr e) = and-below_top c.tail ∙ omega (arith, e)

  pub is_committed-clear : (c : TxCache) → c.tail ≡ composite id at → is_committed c ≡ false
  unfolding is_committed
  is_committed-clear c e = ground (arith, and-top c.tail)

  pub is_committed-set :
      (c : TxCache) → c.tail ≡ composite id at + tx_committed → is_committed c ≡ true
  unfolding is_committed
  is_committed-set c e = ground (arith, and-top c.tail)

-- The number behind one more result.
pub advance-composite :
    (id at size : ℕ)
    → id + 1 < 65536
    → at + size < 32768
    → advance_composite_id id at size ≡ composite (id + 1) (at + size)
unfolding advance_composite_id
advance-composite id at size few short =
    ap (bit_or ((id + 1) % usize_mod)) wrapped
    ∙ ap (λ n. bit_or n ((at + size) * 65536)) small
    ∙ or-upper_half (id + 1) (at + size) few
  where
    small : (id + 1) % usize_mod ≡ id + 1
    small = omega arith

    wrapped : (at + size) % usize_mod * 65536 % usize_mod ≡ (at + size) * 65536
    wrapped = omega arith
