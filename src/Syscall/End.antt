-- ===== src/Syscall/End.antt =====
-- A failure at the end of a system call (src/syscalls.rs, `syscall_end`).
use int_os.Base.{
  ℕ, zero, suc, ◌+◌, ◌≤◌, ◌<◌, ◌≡◌, ◌⊎◌, inl, inr, refl, ◌∙◌, arith, true, false, some, List, [],
  ◌∷◌, ◌++◌, ltb, leb, ◌&&◌, update, update_ne, Bool-cases, sym,
}
use mathlib.Core.List.{append_assoc}
use mathlib.Core.Option.{some-injective}
use int_os.Journal.{Bytes}
use int_os.Heap.{align_up}
use int_os.Heap.Align.{align_up-multiple}
use int_os.Syscall.{
  Syscalls, Write, perform, stop_after, set_replay, set_tail, copy_writes, syscall_end,
  add_entry_start, add_entry_commit, user_tx_start, commit_syscall_tx_cache, reset_list_transaction,
  recover_syscall, arch_align, syscall_replay_cache_sz,
}

abbrev pub with_cache : Bytes → Syscalls → Syscalls
with_cache b k = set_replay (record k.syscall_replay_cache { cache = b }) k

abbrev pub Kept : ℕ → Bytes → Bytes → Type 0
Kept at b c = (a : ℕ) → a < at → b a ≡ c a

-- A copy that the power stops, or that ends and goes on to the next writes.
stop_after-copy :
    (m i : ℕ) (entry : Bytes) (at n : ℕ) (rest : List Write) (k : Syscalls)
    → ((b : Bytes) × (stop_after n (copy_writes m i entry at ++ rest) k ≡ with_cache b k)
        × Kept (at + i) b k.syscall_replay_cache.cache)
      ⊎ ((n' : ℕ) × (b : Bytes) × (stop_after n (copy_writes m i entry at ++ rest) k
            ≡ stop_after (suc n') rest (with_cache b k))
          × (perform (copy_writes m i entry at ++ rest) k ≡ perform rest (with_cache b k)))
unfolding stop_after perform copy_writes
stop_after-copy m i entry at zero rest k = inl (k.syscall_replay_cache.cache, refl, λ a h. refl)
stop_after-copy zero i entry at (suc n) rest k = inr (n, k.syscall_replay_cache.cache, refl, refl)
stop_after-copy (suc m) i entry at (suc n) rest k =
    let c = k.syscall_replay_cache.cache in
    let k' = with_cache (update c (at + i) (entry i)) k in
    elim (stop_after-copy m (suc i) entry at n rest k') [
      | inl (b, e, kept) ↦
          inl (b, e, λ a h. kept a (omega arith) ∙ update_ne c (at + i) a (entry i) (ground arith))
      | inr (n', b, e, p) ↦ inr (n', b, e, p)
    ]

-- The writes behind the copy.
abbrev pub end_writes : ℕ → List Write
end_writes tail =
    set_tail tail ∷ commit_syscall_tx_cache ∷ reset_list_transaction ∷ add_entry_commit ∷ []

pub syscall_end-writes :
    (size : ℕ) (ret : Bytes) (k : Syscalls) (ws : List Write)
    → syscall_end size ret k ≡ some ws
    → ws
      ≡ copy_writes (align_up size arch_align) 0 ret k.syscall_replay_cache.tail
        ++ end_writes (k.syscall_replay_cache.tail + align_up size arch_align)
unfolding syscall_end add_entry_start
syscall_end-writes size ret k ws e =
    let c = k.syscall_replay_cache in
    elim (Bool-cases (
      leb (c.tail + align_up size arch_align) syscall_replay_cache_sz
      && ltb c.tail syscall_replay_cache_sz)) [
        | inl fits ↦
            some-injective _ _ (sym (rw (syscall_end, add_entry_start, fits) at e))
            ∙ append_assoc (copy_writes (align_up size arch_align) 0 ret c.tail)
                (set_tail (c.tail + align_up size arch_align) ∷ []) _
        | inr full ↦ absurd (ground (arith, full, e))
      ]

-- Behind the copy, the recovery keeps what was in front of the call, until the tail is written; from
-- then on it makes the end of the call complete.
finish :
    (t n : ℕ) (k : Syscalls)
    → k.syscall_replay_cache.ptr < t
    → user_tx_start (recover_syscall (stop_after (suc n) (end_writes t) k))
      ≡ user_tx_start (perform (end_writes t) k)
unfolding stop_after perform recover_syscall user_tx_start add_entry_commit reset_list_transaction
    commit_syscall_tx_cache
finish t zero k h = let lt : ltb k.syscall_replay_cache.ptr t ≡ true = ground arith in rw lt refl
finish t (suc zero) k h =
    let lt : ltb k.syscall_replay_cache.ptr t ≡ true = ground arith in rw lt refl
finish t (suc (suc zero)) k h =
    let lt : ltb k.syscall_replay_cache.ptr t ≡ true = ground arith in rw lt refl
finish t (suc (suc (suc zero))) k h = let same : ltb t t ≡ false = ground arith in rw same refl
finish t (suc (suc (suc (suc n)))) k h = let same : ltb t t ≡ false = ground arith in rw same refl

pub align_up-positive :
    (size : ℕ) → 0 < size → size ≤ syscall_replay_cache_sz → size ≤ align_up size arch_align
align_up-positive size pos le =
    let a = align_up-multiple size 2 (omega arith) (omega arith) in omega (arith, a.1, a.2)

-- The recovery in front of the write of the tail.
unfinished :
    (b : Bytes) (k : Syscalls)
    → k.syscall_replay_cache.ptr ≡ k.syscall_replay_cache.tail
    → user_tx_start (recover_syscall (with_cache b k)) ≡ user_tx_start (with_cache b k)
unfolding recover_syscall user_tx_start
unfinished b k e =
    let spent : ltb k.syscall_replay_cache.ptr k.syscall_replay_cache.tail ≡ false =
      ground (arith, e) in
    rw spent refl

-- A power failure at any point of the end of a system call, with all results before it replayed and a
-- result that fits: at the start of the next attempt the task's state is the one in front of the
-- end, except for bytes of the cache behind its tail, so that the call runs again with the results of
-- its kernel transactions; or it is the one behind the end, so that the call is replayed.
pub syscall_end-crash_safe :
    (size : ℕ) (ret : Bytes) (n : ℕ) (k : Syscalls) (ws : List Write)
    → k.syscall_replay_cache.ptr ≡ k.syscall_replay_cache.tail
    → 0 < size
    → size ≤ syscall_replay_cache_sz
    → syscall_end size ret k ≡ some ws
    → ((b : Bytes) × (user_tx_start (recover_syscall (stop_after n ws k))
          ≡ user_tx_start (with_cache b k))
        × Kept k.syscall_replay_cache.tail b k.syscall_replay_cache.cache)
      ⊎ (user_tx_start (recover_syscall (stop_after n ws k)) ≡ user_tx_start (perform ws k))
syscall_end-crash_safe size ret n k ws at_end pos le e =
    let t = k.syscall_replay_cache.tail in
    let m = align_up size arch_align in
    rw (syscall_end-writes size ret k ws e)
      (elim (stop_after-copy m 0 ret t n (end_writes (t + m)) k) [
        | inl (b, s, kept) ↦ inl (b, rw s (unfinished b k at_end), λ a h. kept a (omega (arith, h)))
        | inr (n', b, s, p) ↦ inr (
            rw (s, p)
              (finish (t + m) n' (with_cache b k)
                (omega (arith, at_end, align_up-positive size pos le))))
      ])
