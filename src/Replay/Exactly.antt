-- ===== src/Replay/Exactly.antt =====
-- Each transaction of a task takes effect exactly once, whatever the power failures
-- (src/user/transaction.rs, src/transaction.rs, src/task.rs).
use mathlib.Core.Option.{some_inj}
use int_os.Base.{ℕ, zero, suc, ◌+◌, ◌≡◌, sym, arith, refl, some, inl, ◌∙◌}
use int_os.Journal as Undo
use int_os.Journal.{Bytes, Journal}
use int_os.TxCache as Cached
use int_os.TxCache.{TxCache}
use int_os.Transaction.{Machine, user_recovery}
use int_os.Replay.{
  Program, finished, tx, value, outcome, execute, IsLogged, Fits, Boots, same, again, Fails,
}
use int_os.Replay.Point.{At}
use int_os.Replay.Step.{user_run_step}
use int_os.Replay.Failed.{Fails-Recovered}
use mathlib.Core.Path.{subst}

-- A run from any point ends, with the results and the memory of the program.
execute_lem :
    (p : Program) (mem : Bytes) (id at n to : ℕ) (m : Machine)
    → At p mem id at n to m
    → (m' : Machine) × (execute p m ≡ some ((outcome p mem).0, m')) × (m'.mem ≡ (outcome p mem).1)
unfolding execute outcome
execute_lem finished mem id at zero to m h = (m, refl, sym h.kept.replays.0)
execute_lem finished mem id at (suc n) to m h = absurd h.kept.replays
execute_lem (tx b k) mem id at n to m h =
    let s = user_run_step b k mem id at n to m h in
    let rest =
      execute_lem (k (value b mem)) (b.after mem) (id + 1) (at + b.size) s.2.left s.2.to s.0
        s.2.at_next in
    (rest.0, rw (s.1, execute) (rw rest.1 refl), rest.2)

-- The memory of a task that was created (`UserTxInfo::init`).
abbrev pub created : Bytes → Journal → TxCache → Machine
created mem j c = record { mem = mem; journal = Undo.init j; cache = Cached.init c }

module _ (journal_size : ℕ) (p : Program) (mem : Bytes) (j : Journal) (c : TxCache)
    (logged : IsLogged journal_size p) (fits : Fits p mem 0 0) where
  Boots-At :
      {m m' : Machine} (n to : ℕ)
      → At p mem 0 0 n to m
      → Boots journal_size p m m'
      → (n' : ℕ) × (to' : ℕ) × At p mem 0 0 n' to' m'
  Boots-At n to h (same e) = (n, to, subst (At p mem 0 0 n to) e h)
  Boots-At n to h (again stopped booted f e rest) =
      let r = Fails-Recovered journal_size mem 0 0 n to logged h f in
      let here = some_inj.0 (sym r.recovers ∙ e) in
      Boots-At r.left r.to
        (subst (At p mem 0 0 r.left r.to) here (record {
          kept = r.kept;
          ptr = r.ptr;
          fits = fits;
          short = omega arith;
          few = omega arith;
        }))
        rest

  created-At : At p mem 0 0 0 0 (created mem j c)
  unfolding Undo.init Cached.init
  created-At = record {
    kept = record { tail = inl refl; replays = (refl, refl); journal = refl };
    ptr = refl;
    fits = fits;
    short = omega arith;
    few = omega arith;
  }

  -- A task whose bodies log the objects that they write to, and whose results fit in the cache, starts
  -- with an empty journal and cache, and is stopped by power failures at any points of its transactions
  -- and commits, any number of times. With the power stable from the last boot on, it ends, its
  -- transactions have returned what they return in a run without failures, and the memory is the one
  -- that such a run leaves: each transaction has taken effect exactly once.
  pub run-exactly_once :
      {m : Machine}
      → Boots journal_size p (created mem j c) m
      → (m' : Machine) × (execute p m ≡ some ((outcome p mem).0, m')) × (m'.mem ≡ (outcome p mem).1)
  run-exactly_once {m} boots =
      let h = Boots-At 0 0 created-At boots in execute_lem p mem 0 0 h.0 h.1 m h.2

  -- For such a task the recovery that follows a power failure never fails, and puts the replay to the
  -- first transaction.
  pub user_recovery-succeeds :
      {m stopped : Machine}
      → Boots journal_size p (created mem j c) m
      → Fails journal_size p m stopped
      → (booted : Machine) × (user_recovery stopped ≡ some booted)
        × (booted.cache.ptr ≡ 0)
        × (booted.journal.tail ≡ 0)
  user_recovery-succeeds boots f =
      let h = Boots-At 0 0 created-At boots in
      let r = Fails-Recovered journal_size mem 0 0 h.0 h.1 logged h.2 f in
      (r.booted, r.recovers, r.ptr, r.kept.journal)
