-- ===== src/PQueue.antt =====
-- The queues of user code, src/user/pqueue.rs (`PQueue`): a ring of `cap` elements. The record with the
-- positions is logged in the journal when it is changed; the elements are written without a log.
pub mod Ring
pub mod Refines
pub mod Aborted
use int_os.Base.{ℕ, suc, ◌+◌, ◌-◌, Option, none, some, ltb, ◌==◌, if◌then◌else◌, update}

-- `RawPQueue`, with its elements
pub record PQueue (A : Type 0) : Type 0 where
  pub buf : ℕ → A
  pub cap : ℕ
  pub head : ℕ
  pub tail : ℕ
  pub len : ℕ

-- The position behind `i`.
unfoldable pub next : ℕ → ℕ → ℕ
next cap i = if i + 1 == cap then 0 else i + 1

module _ {A : Type 0} where
  -- `try_new`, with memory that holds `buf`; `none` where the assertion fails.
  unfoldable pub try_new : (ℕ → A) → ℕ → Option (PQueue A)
  try_new buf cap =
      if cap == 0 then none else some (record { buf = buf; cap = cap; head = 0; tail = 0; len = 0 })

  -- `none` where the assertion fails
  unfoldable pub push_back : A → PQueue A → Option (PQueue A)
  unfolding next
  push_back elem q =
      if ltb q.len q.cap
      then some
          (record q { buf = update q.buf q.tail elem; tail = next q.cap q.tail; len = q.len + 1 })
      else none

  unfoldable pub clear : PQueue A → PQueue A
  clear q = record q { tail = 0; head = 0; len = 0 }

  unfoldable pub peek_front : PQueue A → Option A
  peek_front q = if q.len == 0 then none else some (q.buf q.head)

  unfoldable pub pop_front : PQueue A → Option A × PQueue A
  unfolding next
  pop_front q =
      if q.len == 0
      then (none, q)
      else (some (q.buf q.head), record q { head = next q.cap q.head; len = q.len - 1 })
