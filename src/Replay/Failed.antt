-- ===== src/Replay/Failed.antt =====
-- The recovery of a run that the power failure stopped (src/task.rs, `user_recovery`).
use mathlib.Core.Path.{subst}
use mathlib.Core.Option.{some_inj}
use int_os.Journal as Undo
use int_os.Journal.Records.{Entry}
use int_os.Base.{
  ℕ, zero, suc, ◌+◌, ◌≤◌, ◌<◌, ◌≡◌, ◌∙◌, sym, ap, arith, refl, none, some, inl, inr, List,
}
use int_os.Journal.{Bytes, Journal, recover, clear}
use int_os.Journal.Undo.{Tx, begun, recover-restores}
use int_os.TxCache.{tx_committed, try_retrieve_result, tx_cache_sz, clear_commit_flag}
use int_os.TxCache.Fields.{composite, Tail, is_committed-clear, is_committed-set}
use int_os.Transaction.{
  Machine, Body, user_recovery, restart, roll_back, clear_journal, begin, performed,
}
use int_os.Transaction.Commit.{Committed, commit-Stopped}
use int_os.Replay.{
  Program, tx, value, Torn, in_body, in_commit, Fails, between, inside, later, IsLogged,
}
use int_os.Replay.Point.{At, Kept, Replays-bounds}
use int_os.Replay.Step.{begun_tail, begun_ptr, user_run_step, Stepped, is_cached}

Tx-same :
    {journal_size : ℕ} {mem₀ : Bytes} {es : List Entry} {mem mem' : Bytes} {j j' : Journal}
    → mem ≡ mem'
    → j ≡ j'
    → Tx journal_size mem₀ es mem j
    → Tx journal_size mem₀ es mem' j'
Tx-same {journal_size} {mem₀} {es} {mem} {mem'} {j} em ej t =
    subst (Tx journal_size mem₀ es mem') ej (subst (λ x. Tx journal_size mem₀ es x j) em t)

-- The recovery behind a commit, and before one.
pub recover_committed :
    (m : Machine) (id at : ℕ)
    → id < 65536
    → at < 32768
    → m.cache.tail ≡ composite id at + tx_committed
    → user_recovery m ≡ some (restart (clear_journal m))
unfolding user_recovery
recover_committed m id at few short e =
    rw (is_committed-set {id = id} {at = at} few short m.cache e, user_recovery) refl

pub recover_uncommitted :
    {journal_size : ℕ} (m : Machine) (id at : ℕ) {mem : Bytes} {es : List Entry}
    → id < 65536
    → at < 32768
    → m.cache.tail ≡ composite id at
    → Tx journal_size mem es m.mem m.journal
    → user_recovery m ≡ some (restart (record m { mem = mem; journal = clear m.journal }))
unfolding user_recovery roll_back
recover_uncommitted m id at few short e t =
    rw (is_committed-clear {id = id} {at = at} few short m.cache e, user_recovery)
      (rw ((recover-restores t).0, roll_back) refl)

-- A boot behind the point at which the program was: what it reads is kept, and the cache below that
-- point is as it was.
pub record Recovered (p : Program) (mem : Bytes) (id at : ℕ) (m stopped : Machine) : Type 0 where
  pub booted : Machine
  pub recovers : user_recovery stopped ≡ some booted
  pub left : ℕ
  pub to : ℕ
  pub kept : Kept p mem id at left to booted
  pub ptr : booted.cache.ptr ≡ 0
  pub below : (a : ℕ) → a < at → booted.cache.cache a ≡ m.cache.cache a

module _ (p : Program) (mem : Bytes) (id at n to : ℕ) (m : Machine)
    (h : At p mem id at n to m) where
  bounds : (id + n < 65536) × (to ≤ tx_cache_sz) × (at ≤ to)
  bounds = Replays-bounds n p mem id at m.cache.cache m.mem to h.fits h.short h.few h.kept.replays

  -- Between two transactions.
  pub between-Recovered : Recovered p mem id at m m
  unfolding restart Undo.clear
  between-Recovered = elim h.kept.tail [
    | inl e ↦ record {
      booted = restart (record m { journal = clear m.journal });
      recovers =
          recover_uncommitted {journal_size = 0} m (id + n) to bounds.0 (omega (arith, bounds.1)) e
            (begun h.kept.journal);
      left = n;
      to = to;
      kept = record { tail = inl e; replays = h.kept.replays; journal = refl };
      ptr = refl;
      below = λ a lt. refl;
    }
    | inr e ↦ record {
      booted = restart (clear_journal m);
      recovers = recover_committed m (id + n) to bounds.0 (omega (arith, bounds.1)) e;
      left = n;
      to = to;
      kept = record { tail = inr e; replays = h.kept.replays; journal = refl };
      ptr = refl;
      below = λ a lt. refl;
    }
  ]

module _ (journal_size : ℕ) (b : Body) (k : List ℕ → Program) (mem : Bytes) (id at to : ℕ)
    (m : Machine) (logged : IsLogged journal_size (tx b k)) (h : At (tx b k) mem id at 0 to m) where
  abbrev start : Machine
  start = performed b (begin m)

  -- Before the commit.
  rolled_back :
      {es : List Entry} (stopped : Machine)
      → Tx journal_size m.mem es stopped.mem stopped.journal
      → stopped.cache.tail ≡ composite id at
      → ((a : ℕ) → a < at → stopped.cache.cache a ≡ m.cache.cache a)
      → Recovered (tx b k) mem id at m stopped
  unfolding restart Undo.clear
  rolled_back stopped t e same = record {
    booted = restart (record stopped { mem = m.mem; journal = clear stopped.journal });
    recovers = recover_uncommitted stopped id at h.few (omega (arith, h.short)) e t;
    left = 0;
    to = at;
    kept = record {
      tail = inl (e ∙ omega arith);
      replays = (h.kept.replays.0, refl);
      journal = refl;
    };
    ptr = refl;
    below = same;
  }

  -- Behind it.
  rolled_forward :
      (stopped : Machine)
      → Committed start id at b.size (b.result m.mem) stopped
      → Recovered (tx b k) mem id at m stopped
  unfolding restart Undo.clear begin clear_commit_flag
  rolled_forward stopped c = record {
    booted = restart (clear_journal stopped);
    recovers =
        recover_committed stopped (id + 1) (at + b.size) h.fits.1 (omega (arith, h.fits.0)) c.tail;
    left = 1;
    to = at + b.size;
    kept = record {
      tail = inr c.tail;
      replays = (
        λ i lt. c.bytes i lt ∙ ap (λ x. b.result x i) (sym h.kept.replays.0),
        (ap b.after h.kept.replays.0 ∙ sym c.mem, refl),
      );
      journal = refl;
    };
    ptr = refl;
    below = c.below;
  }

  pub Torn-Recovered :
      (stopped : Machine) → Torn journal_size b m stopped → Recovered (tx b k) mem id at m stopped
  unfolding begin clear_commit_flag
  Torn-Recovered stopped (in_body empty t) =
      rolled_back _ t (begun_tail b k mem id at to m h) (λ a lt. refl)
  Torn-Recovered stopped (in_commit n) =
      elim (commit-Stopped start id at b.size (b.result m.mem) h.fits.1 (omega (arith, h.fits.0))
        (begun_tail b k mem id at to m h) (begun_ptr b k mem id at to m h) n) [
          | inl u ↦
              rolled_back _
                (Tx-same (sym u.mem) (sym u.journal) (logged.0 m.mem m.journal h.kept.journal).1)
                (u.tail ∙ begun_tail b k mem id at to m h) u.below
          | inr c ↦ rolled_forward _ c
        ]

-- A boot behind a transaction is one behind the program that it starts.
later-Recovered :
    (b : Body) (k : List ℕ → Program) (mem : Bytes) (id at : ℕ) (m next stopped : Machine)
    → Stepped b k mem id at m next
    → Recovered (k (value b mem)) (b.after mem) (id + 1) (at + b.size) next stopped
    → Recovered (tx b k) mem id at m stopped
later-Recovered b k mem id at m next stopped s r = record {
  booted = r.booted;
  recovers = r.recovers;
  left = suc r.left;
  to = r.to;
  kept = record {
    tail =
        subst (λ i. Tail r.booted.cache.tail i r.to) {x = id + 1 + r.left} {y = id + suc r.left}
          (omega arith) r.kept.tail;
    replays = (λ i lt. r.below (at + i) (omega arith) ∙ s.bytes i lt, r.kept.replays);
    journal = r.kept.journal;
  };
  ptr = r.ptr;
  below = λ a lt. r.below a (omega arith) ∙ s.below a lt;
}

module _ (journal_size : ℕ) where
  inside-Recovered :
      (b : Body) (k : List ℕ → Program) (mem : Bytes) (id at n to : ℕ) (m stopped : Machine)
      → IsLogged journal_size (tx b k)
      → At (tx b k) mem id at n to m
      → try_retrieve_result b.size m.cache ≡ none
      → Torn journal_size b m stopped
      → Recovered (tx b k) mem id at m stopped
  inside-Recovered b k mem id at zero to m stopped logged h e t =
      Torn-Recovered journal_size b k mem id at to m logged h stopped t
  inside-Recovered b k mem id at (suc n) to m stopped logged h e t =
      absurd (is_cached b k mem id at n to m h e)

  -- Wherever a run stops, the recovery boots it.
  pub Fails-Recovered :
      {p : Program} {m stopped : Machine} (mem : Bytes) (id at n to : ℕ)
      → IsLogged journal_size p
      → At p mem id at n to m
      → Fails journal_size p m stopped
      → Recovered p mem id at m stopped
  Fails-Recovered {p} {m} mem id at n to logged h (between e) =
      subst (Recovered p mem id at m) e (between-Recovered p mem id at n to m h)
  Fails-Recovered {m = m} {stopped = stopped} mem id at n to logged h (inside {b} {k} e t) =
      inside-Recovered b k mem id at n to m stopped logged h e t
  Fails-Recovered {m = m} {stopped = stopped} mem id at n to logged h (later {b} {k} v next e f) =
      let s = user_run_step b k mem id at n to m h in
      let same = some_inj.0 (sym s.1 ∙ e) in
      later-Recovered b k mem id at m s.0 stopped s.2 (
        subst (λ q. Recovered (k q.0) (b.after mem) (id + 1) (at + b.size) q.1 stopped) (sym same)
          (Fails-Recovered (b.after mem) (id + 1) (at + b.size) s.2.left s.2.to (logged.1 v)
            (subst (λ q. At (k q.0) (b.after mem) (id + 1) (at + b.size) s.2.left s.2.to q.1) same
              s.2.at_next)
            f))
