-- ===== src/Replay/Step.antt =====
-- One transaction of a run: the cached result, or the transaction itself (src/user/transaction.rs,
-- `run`; src/transaction.rs, `Transaction::run`).
use int_os.Base.{
  ℕ, ◌+◌, ◌≤◌, ◌<◌, ◌≡◌, ◌∙◌, sym, ap, arith, refl, none, some, inl, inr, ltb, Bool-cases, true,
  false, ◌%◌, usize_mod, List, suc, zero, Option, ◌≢◌,
}
use int_os.Journal.{Bytes}
use int_os.TxCache.{
  TxCache, try_retrieve_result, get_tx_id_of_ptr, get_tx_id_of_tail, tx_cache_sz, clear_commit_flag,
}
use int_os.TxCache.Fields.{
  composite, Tail, tail_id, ptr_id, ptr_at, advance-composite, clear-tail, tail_at,
}
use int_os.Transaction.{object, Body, Machine, user_run, performed, begin, has_room, run, perform}
use int_os.Replay.Point.{object-same, At, Replays-bounds}
use int_os.Replay.{Program, value, tx}
use mathlib.Core.Path.{subst}
use int_os.Transaction.Commit.{Finished, commit-Finished}
use int_os.Transaction.{commit}

-- The replay has not come to the end of the cached results, or it has.
module _ (c : TxCache) (size id at n to : ℕ) (t : Tail c.tail (id + n) to)
    (p : c.ptr ≡ composite id at) (few : id + n < 65536) (short : to < 32768) (le : at ≤ to) where
  ids : ltb (get_tx_id_of_ptr c) (get_tx_id_of_tail c) ≡ ltb id (id + n)
  ids =
      ap (λ i. ltb i (get_tx_id_of_tail c))
        (ptr_id {id = id} {at = at} (omega arith) (omega arith) c p)
      ∙ ap (ltb id) (tail_id {id = id + n} {at = to} few short c t)

  pub retrieve_none : n ≡ 0 → try_retrieve_result size c ≡ none
  unfolding try_retrieve_result
  retrieve_none e =
      let none_left : ltb id (id + n) ≡ false = ground (arith, e) in rw (ids ∙ none_left)

  pub retrieve_some :
      0 < n
      → at + size < 32768
      → (f : Bytes) → ((i : ℕ) → i < size → c.cache (at + i) ≡ f i)
      → (v : Bytes) × (c' : TxCache) × (try_retrieve_result size c ≡ some (v, c'))
        × (object size 0 v ≡ object size 0 f)
        × (c' ≡ record c { ptr = composite (id + 1) (at + size) })
  unfolding try_retrieve_result
  retrieve_some more short' f bytes = elim (Bool-cases (ltb 0 size)) [
    | inl some_bytes ↦ (
      λ i. c.cache (at + i),
      record c { ptr = composite (id + 1) (at + size) },
      rw (
        ids ∙ left,
        some_bytes,
        ptr_at {id = id} {at = at} (omega arith) (omega arith) c p,
        ptr_id {id = id} {at = at} (omega arith) (omega arith) c p,
        advance-composite id at size (omega arith) short',
      ),
      object-same size 0 0 (λ i. c.cache (at + i)) f
          (λ i h. ap (λ j. c.cache (at + j)) (start i) ∙ bytes i h ∙ ap f (sym (start i))),
      refl,
    )
    | inr empty ↦
        let none_of : size ≡ 0 = ground arith in
        (
          c.cache,
          record c { ptr = (c.ptr + 1) % usize_mod },
          rw (ids ∙ left, empty),
          rw none_of refl,
          ap (λ q. record c { ptr = q }) (omega (arith, p, none_of)),
        )
  ]
    where
      start : (i : ℕ) → 0 + i ≡ i
      start i = omega arith

      left : ltb id (id + n) ≡ true
      left = ground arith

-- A transaction of the program, from `m` to `m'`: the next results are left to be read, and those up to
-- its own stay in the cache.
pub record Stepped (b : Body) (k : List ℕ → Program) (mem : Bytes) (id at : ℕ) (m m' : Machine)
    : Type 0 where
  pub left : ℕ
  pub to : ℕ
  pub at_next : At (k (value b mem)) (b.after mem) (id + 1) (at + b.size) left to m'
  pub below : (a : ℕ) → a < at → m'.cache.cache a ≡ m.cache.cache a
  pub bytes : (i : ℕ) → i < b.size → m'.cache.cache (at + i) ≡ b.result mem i

module _ (b : Body) (k : List ℕ → Program) (mem : Bytes) (id at n to : ℕ) (m : Machine)
    (h : At (tx b k) mem id at (suc n) to m) where
  bounds : (id + suc n < 65536) × (to ≤ tx_cache_sz) × (at ≤ to)
  bounds =
      Replays-bounds (suc n) (tx b k) mem id at m.cache.cache m.mem to h.fits h.short h.few
        h.kept.replays

  found :
      (v : Bytes) × (c' : TxCache) × (try_retrieve_result b.size m.cache ≡ some (v, c'))
      × (object b.size 0 v ≡ value b mem)
      × (c' ≡ record m.cache { ptr = composite (id + 1) (at + b.size) })
  found =
      retrieve_some m.cache b.size id at (suc n) to h.kept.tail h.ptr bounds.0
        (omega (arith, bounds.1)) bounds.2 (omega arith) (omega (arith, h.fits.0)) (b.result mem)
        h.kept.replays.0

  pub is_cached : try_retrieve_result b.size m.cache ≢ none
  is_cached e = cc (found.2)

  cached_step :
      (m' : Machine) × (user_run b m ≡ some (value b mem, m')) × Stepped b k mem id at m m'
  unfolding user_run
  cached_step = (
    record m { cache = record m.cache { ptr = composite (id + 1) (at + b.size) } },
    rw (found.2, user_run) (rw (found.3, found.4)),
    record {
      left = n;
      to = to;
      below = λ a lt. refl;
      bytes = h.kept.replays.0;
      at_next = record {
        kept = record {
          tail =
              subst (λ i. Tail m.cache.tail i to) {x = id + suc n} {y = id + 1 + n} (omega arith)
                h.kept.tail;
          replays = h.kept.replays.1;
          journal = h.kept.journal;
        };
        ptr = refl;
        fits = h.fits.2;
        short = h.fits.0;
        few = h.fits.1;
      };
    },
  )

-- A transaction that is not cached runs, and its result is the last one.
module _ (b : Body) (k : List ℕ → Program) (mem : Bytes) (id at to : ℕ) (m : Machine)
    (h : At (tx b k) mem id at 0 to m) where
  abbrev pub base : Machine
  base = performed b (begin m)

  pub here_to : at ≡ to
  here_to = h.kept.replays.1

  last : Tail m.cache.tail id at
  last =
      subst (λ i. Tail m.cache.tail i at) {x = id + 0} {y = id} (omega arith)
        (subst (λ t. Tail m.cache.tail (id + 0) t) (sym here_to) h.kept.tail)

  pub begun_tail : base.cache.tail ≡ composite id at
  unfolding begin
  begun_tail = clear-tail {id = id} {at = at} h.few (omega (arith, h.short)) m.cache last

  pub begun_ptr : base.cache.ptr ≡ composite id at
  unfolding begin clear_commit_flag
  begun_ptr = h.ptr

  pub not_cached : try_retrieve_result b.size m.cache ≡ none
  not_cached =
      retrieve_none m.cache b.size id at 0 to h.kept.tail h.ptr (omega (arith, h.few))
        (omega (arith, here_to, h.short)) (omega (arith, here_to)) refl

  room : has_room b.size base.cache ≡ true
  unfolding has_room
  room =
      rw (tail_at {id = id} {at = at} h.few (omega (arith, h.short)) base.cache (inl begun_tail))
        (ground (arith, h.fits.0))

  abbrev final : Machine
  final = perform (commit b.size (b.result m.mem) base.cache) base

  pub ended_in : Finished base id at b.size (b.result m.mem) final
  ended_in =
      commit-Finished base id at b.size (b.result m.mem) h.fits.1 (omega (arith, h.fits.0))
        begun_tail begun_ptr

  ran : run b m ≡ some final
  unfolding run
  ran = rw (room, run)

  shown : Bytes → Option (List ℕ × Machine)
  shown x = some (object b.size 0 (b.result x), final)

  run_step : (m' : Machine) × (user_run b m ≡ some (value b mem, m')) × Stepped b k mem id at m m'
  unfolding user_run shown
  run_step = (
    final,
    rw (not_cached, user_run) (rw ran (ap shown (sym h.kept.replays.0))),
    record {
      left = 0;
      to = at + b.size;
      below = λ a lt. ended_in.committed.below a lt;
      bytes = λ i lt. ended_in.committed.bytes i lt ∙ ap (λ x. b.result x i) (sym h.kept.replays.0);
      at_next = record {
        kept = record {
          tail = inr (ended_in.committed.tail ∙ omega arith);
          replays = (ap b.after h.kept.replays.0 ∙ sym ended_in.committed.mem, refl);
          journal = ended_in.journal;
        };
        ptr = ended_in.ptr;
        fits = h.fits.2;
        short = h.fits.0;
        few = h.fits.1;
      };
    },
  )

-- Either way.
pub user_run_step :
    (b : Body) (k : List ℕ → Program) (mem : Bytes) (id at n to : ℕ) (m : Machine)
    → At (tx b k) mem id at n to m
    → (m' : Machine) × (user_run b m ≡ some (value b mem, m')) × Stepped b k mem id at m m'
user_run_step b k mem id at zero to m h = run_step b k mem id at to m h
user_run_step b k mem id at (suc n) to m h = cached_step b k mem id at n to m h
