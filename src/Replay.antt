-- ===== src/Replay.antt =====
-- A task as a sequence of transactions, each of which is chosen by the results before it: its run, its
-- run with power failures and reboots, and what it means without any of these
-- (src/user/transaction.rs, `run`; src/task.rs, `user_recovery`).
pub mod Point
pub mod Step
pub mod Failed
pub mod Exactly
use int_os.Base.{ℕ, suc, ◌+◌, ◌≤◌, ◌<◌, ◌≡◌, Option, none, some, List, [], ◌∷◌}
use int_os.Journal.{Bytes, Journal}
use int_os.Journal.Records.{Entry}
use int_os.Journal.Undo.{Tx}
use int_os.TxCache.{tx_cache_sz, try_retrieve_result}
use int_os.Transaction.{
  Machine, Body, object, begin, performed, commit, cut, user_run, user_recovery,
}

pub data Program : Type 0 where
  finished : Program
  tx : Body → (List ℕ → Program) → Program

-- The value that a body returns to the program.
abbrev pub value : Body → Bytes → List ℕ
value b mem = object b.size 0 (b.result mem)

-- The results of the transactions, and the memory that they leave: what the program is to do.
unfoldable pub outcome : Program → Bytes → List (List ℕ) × Bytes
outcome finished mem = ([], mem)
outcome (tx b k) mem =
    let rest = outcome (k (value b mem)) (b.after mem) in (value b mem ∷ rest.0, rest.1)

-- A run from the start of the program, with the power stable.
unfoldable pub execute : Program → Machine → Option (List (List ℕ) × Machine)
unfolding user_run
execute finished m = some ([], m)
execute (tx b k) m = elim (user_run b m) [
  | none ↦ none
  | some (v, m') ↦ elim (execute (k v) m') [ none ↦ none | some (vs, m'') ↦ some (v ∷ vs, m'') ]
]

module _ (journal_size : ℕ) where
  -- What a transaction that is not cached may leave when the power fails. Its body starts with an
  -- empty journal.
  pub data Torn (b : Body) (m : Machine) : Machine → Type 0 where
    in_body :
        {es : List Entry} {mem : Bytes} {j : Journal}
        → m.journal.tail ≡ 0
        → Tx journal_size m.mem es mem j
        → Torn b m (record (begin m) { mem = mem; journal = j })
    in_commit :
        (n : ℕ)
        → Torn b m (cut n (commit b.size (b.result m.mem) (begin m).cache) (performed b (begin m)))

  -- What a run may leave when the power fails: between two transactions, in one, or later.
  pub data Fails : Program → Machine → Machine → Type 0 where
    between : {p : Program} {m m' : Machine} → m ≡ m' → Fails p m m'
    inside :
        {b : Body} {k : List ℕ → Program} {m m' : Machine}
        → try_retrieve_result b.size m.cache ≡ none
        → Torn b m m'
        → Fails (tx b k) m m'
    later :
        {b : Body} {k : List ℕ → Program} {m m' : Machine} (v : List ℕ) (next : Machine)
        → user_run b m ≡ some (v, next)
        → Fails (k v) next m'
        → Fails (tx b k) m m'

  -- From the memory of one boot to that of a later one: the run of the former fails, the recovery
  -- follows, and so on.
  pub data Boots (p : Program) : Machine → Machine → Type 0 where
    same : {m m' : Machine} → m ≡ m' → Boots p m m'
    again :
        {m m' : Machine} (stopped booted : Machine)
        → Fails p m stopped
        → user_recovery stopped ≡ some booted
        → Boots p booted m'
        → Boots p m m'

  -- Each body logs the objects that it writes to, and has room for them in the journal.
  abbrev pub IsLogged : Program → Type 0
  IsLogged finished = Unit
  IsLogged (tx b k) =
      ((mem : Bytes) (j : Journal)
        → j.tail ≡ 0
        → (es : List Entry) × Tx journal_size mem es (b.after mem) (b.logs mem j))
      × ((v : List ℕ) → IsLogged (k v))

-- The results fit in the cache, and the transactions can be counted, with `id` of them before the
-- program, whose results have `at` bytes.
abbrev pub Fits : Program → Bytes → ℕ → ℕ → Type 0
Fits finished mem id at = Unit
Fits (tx b k) mem id at =
    (at + b.size ≤ tx_cache_sz)
    × (id + 1 < 65536)
    × Fits (k (value b mem)) (b.after mem) (id + 1) (at + b.size)
