-- ===== src/Syscall/Results.antt =====
-- The results of the system calls of a user transaction, and their replay (src/syscalls.rs).
use int_os.Base.{
  ℕ, zero, suc, ◌+◌, ◌≤◌, ◌<◌, ◌≡◌, refl, ap, ◌∙◌, sym, arith, true, false, none, some, List, [],
  ◌∷◌, ◌++◌, ltb, update, update_self, update_ne,
}
use mathlib.Core.Path.{subst}
use int_os.Journal.{Bytes}
use int_os.Heap.{align_up}
use int_os.Syscall.{
  Syscalls, Write, perform, copy_writes, syscall_begin, syscall_end, get_entry, user_tx_start,
  add_entry_commit, commit_syscall_tx_cache, reset_list_transaction, arch_align,
  syscall_replay_cache_sz, set_replay,
}
use int_os.Syscall.End.{end_writes, with_cache, Kept, syscall_end-writes, align_up-positive}

-- System calls that run one after the other, from the first state to the second one, each with the
-- size of its result and the result. What a call does before its end leaves the replay cache.
pub data Calls : List (ℕ × Bytes) → Syscalls → Syscalls → Type 0 where
  done : {k : Syscalls} → Calls [] k k
  call :
      {k k' : Syscalls} {es : List (ℕ × Bytes)} (size : ℕ) (ret : Bytes) (k₁ : Syscalls)
      (ws : List Write)
      → 0 < size
      → size ≤ syscall_replay_cache_sz
      → k₁.syscall_replay_cache ≡ k.syscall_replay_cache
      → syscall_end size ret k₁ ≡ some ws
      → Calls es (perform ws k₁) k'
      → Calls ((size, ret) ∷ es) k k'

-- Each call, when it begins, finds its result, and behind them a call runs.
abbrev pub Replays : List (ℕ × Bytes) → Syscalls → Type 0
Replays [] k = (size : ℕ) → (syscall_begin size k).0 ≡ none
Replays (e ∷ es) k =
    ((r : Bytes) × ((syscall_begin e.0 k).0 ≡ some r) × ((j : ℕ) → j < e.0 → r j ≡ e.1 j))
    × Replays es (syscall_begin e.0 k).1

-- The bytes of the results, from the position on to the end.
abbrev Holds : ℕ → List (ℕ × Bytes) → ℕ → Bytes → Type 0
Holds at [] end c = at ≡ end
Holds at (e ∷ es) end c =
    (at < end)
    × ((j : ℕ) → j < e.0 → c (at + j) ≡ e.1 j)
    × Holds (at + align_up e.0 arch_align) es end c

Holds-le : (at end : ℕ) (es : List (ℕ × Bytes)) (c : Bytes) → Holds at es end c → at ≤ end
Holds-le at end [] c h = omega (arith, h)
Holds-le at end (e ∷ es) c h = omega (arith, h.0)

-- What a copy and the end behind it write.
perform-copy :
    (m i : ℕ) (entry : Bytes) (at : ℕ) (rest : List Write) (k : Syscalls)
    → (b : Bytes) × (perform (copy_writes m i entry at ++ rest) k ≡ perform rest (with_cache b k))
      × Kept (at + i) b k.syscall_replay_cache.cache
      × ((j : ℕ) → j < m → b (at + i + j) ≡ entry (i + j))
unfolding perform copy_writes
perform-copy zero i entry at rest k =
    (k.syscall_replay_cache.cache, refl, λ a h. refl, λ j h. absurd (omega arith))
perform-copy (suc m) i entry at rest k =
    let c = k.syscall_replay_cache.cache in
    let c' = update c (at + i) (entry i) in
    let r = perform-copy m (suc i) entry at rest (with_cache c' k) in
    (
      r.0,
      r.1,
      λ a h. r.2 a (omega (arith, h)) ∙ update_ne c (at + i) a (entry i) (ground (arith, h)),
      bytes r.0 c' (update_self c (at + i) (entry i)) r.2 r.3,
    )
  where
    bytes :
        (b c : Bytes)
        → c (at + i) ≡ entry i
        → Kept (at + suc i) b c
        → ((j : ℕ) → j < m → b (at + suc i + j) ≡ entry (suc i + j))
        → (j : ℕ) → j < suc m
        → b (at + i + j) ≡ entry (i + j)
    bytes b c put kept tail zero h =
        ap b (omega arith) ∙ kept (at + i) (omega arith) ∙ put ∙ ap entry (omega arith)
    bytes b c put kept tail (suc j) h =
        ap b (omega arith) ∙ tail j (omega (arith, h)) ∙ ap entry (omega arith)

end-effect :
    (t : ℕ) (k : Syscalls)
    → ((perform (end_writes t) k).syscall_replay_cache.tail ≡ t)
      × ((perform (end_writes t) k).syscall_replay_cache.cache ≡ k.syscall_replay_cache.cache)
unfolding perform add_entry_commit commit_syscall_tx_cache reset_list_transaction
end-effect t k = (refl, refl)

syscall_end-effect :
    (size : ℕ) (ret : Bytes) (k : Syscalls) (ws : List Write)
    → syscall_end size ret k ≡ some ws
    → ((perform ws k).syscall_replay_cache.tail
        ≡ k.syscall_replay_cache.tail + align_up size arch_align)
      × Kept k.syscall_replay_cache.tail
          (perform ws k).syscall_replay_cache.cache
          k.syscall_replay_cache.cache
      × ((j : ℕ)
          → j < align_up size arch_align
          → (perform ws k).syscall_replay_cache.cache (k.syscall_replay_cache.tail + j) ≡ ret j)
syscall_end-effect size ret k ws e =
    let at = k.syscall_replay_cache.tail in
    let m = align_up size arch_align in
    let p = perform-copy m 0 ret at (end_writes (at + m)) k in
    let f = end-effect (at + m) (with_cache p.0 k) in
    rw (syscall_end-writes size ret k ws e, p.1)
      (
        f.0,
        λ a h. ap (λ c. c a) f.1 ∙ p.2 a (omega (arith, h)),
        λ j h. ap (λ c. c (at + j)) f.1 ∙ ap p.0 (omega arith) ∙ p.3 j h ∙ ap ret (omega arith),
      )

Calls-Holds :
    {es : List (ℕ × Bytes)} {k k' : Syscalls}
    → Calls es k k'
    → Holds k.syscall_replay_cache.tail es k'.syscall_replay_cache.tail
        k'.syscall_replay_cache.cache
      × Kept k.syscall_replay_cache.tail k'.syscall_replay_cache.cache k.syscall_replay_cache.cache
Calls-Holds done = (refl, λ a h. refl)
Calls-Holds (call {k} {k'} {es} size ret k₁ ws pos le same e rest) =
    let x = syscall_end-effect size ret k₁ ws e in
    let ih = Calls-Holds rest in
    let up = align_up-positive size pos le in
    let t : k₁.syscall_replay_cache.tail ≡ k.syscall_replay_cache.tail = ap (λ c. c.tail) same in
    let next = x.0 ∙ ap (λ a. a + align_up size arch_align) t in
    (
      (
        omega (arith, Holds-le _ _ es _ ih.0, next, up),
        λ j h.
            ih.1 (k.syscall_replay_cache.tail + j) (omega (arith, next, up, h))
            ∙ ap (perform ws k₁).syscall_replay_cache.cache (omega (arith, t))
            ∙ x.2 j (omega (arith, up, h)),
        subst (λ a. Holds a es k'.syscall_replay_cache.tail k'.syscall_replay_cache.cache) next
            ih.0,
      ),
      λ a h.
          ih.1 a (omega (arith, next, h)) ∙ x.1 a (omega (arith, t, h)) ∙ ap (λ c. c.cache a) same,
    )

syscall_begin-runs :
    (size : ℕ) (k : Syscalls)
    → ltb k.syscall_replay_cache.ptr k.syscall_replay_cache.tail ≡ false
    → (syscall_begin size k).0 ≡ none
unfolding syscall_begin get_entry
syscall_begin-runs size k spent = rw (syscall_begin, get_entry, spent) refl

syscall_begin-replays :
    (size : ℕ) (k : Syscalls)
    → ltb k.syscall_replay_cache.ptr k.syscall_replay_cache.tail ≡ true
    → syscall_begin size k ≡ (
      some (λ i. k.syscall_replay_cache.cache (k.syscall_replay_cache.ptr + i)),
      set_replay
          (record k.syscall_replay_cache {
            ptr = k.syscall_replay_cache.ptr + align_up size arch_align;
          })
          k,
    )
unfolding syscall_begin get_entry align_up
syscall_begin-replays size k left = rw (syscall_begin, get_entry, left) refl

Holds-Replays :
    (es : List (ℕ × Bytes)) (k : Syscalls)
    → Holds k.syscall_replay_cache.ptr es k.syscall_replay_cache.tail k.syscall_replay_cache.cache
    → Replays es k
Holds-Replays [] k h = λ size. syscall_begin-runs size k (ground (arith, h))
Holds-Replays (e ∷ es) k h =
    let r = syscall_begin-replays e.0 k (ground (arith, h.0)) in
    (
      (_, ap (λ x. x.0) r, h.1),
      subst (λ k'. Replays es k') (sym (ap (λ x. x.1) r)) (Holds-Replays es _ h.2),
    )

-- Calls whose results are the first ones of a user transaction, when the transaction starts again: each
-- finds the bytes of its result, in order, and the next call runs.
pub Calls-Replays :
    {es : List (ℕ × Bytes)} {k k' : Syscalls}
    → k.syscall_replay_cache.tail ≡ 0
    → Calls es k k'
    → Replays es (user_tx_start k')
unfolding user_tx_start
Calls-Replays {es} {k} {k'} start calls = Holds-Replays es (user_tx_start k') (
    subst (λ a. Holds a es k'.syscall_replay_cache.tail k'.syscall_replay_cache.cache) start
      (Calls-Holds calls).0)
