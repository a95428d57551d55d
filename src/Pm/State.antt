-- ===== src/Pm/State.antt =====
-- The persistent memory: the fields of `Node<T>` and `PList<T>` (src/list.rs) by address, the two
-- list logs, and of src/task.rs the fields of `Task` that the lists read.
use int_os.Base.{ℕ, Bool, Option, false, ltb}
use int_os.OpLog.{Ptr, ListId, TaskId, ListTxOpLog}

abbrev pub PLink : Type 0
PLink = Option Ptr

abbrev pub PListLink : Type 0
PListLink = Option ListId

-- The three types that a list holds: `SchedListItem`, `BlockedListItem`, `TimerListItem`.
pub data Item : Type 0 where
  sched : (task : TaskId) (wakeup_time : ℕ) → Item
  blocked : (task : TaskId) (opaque : ℕ) → Item
  timer : (timer : Option Ptr) (expiry_time : ℕ) → Item

-- The type parameter `T` of a list, which decides the log that it writes.
pub data Kind : Type 0 where
  sched_kind blocked_kind timer_kind : Kind

pub data TaskState : Type 0 where
  ready blocked running killed : TaskState

pub record Task : Type 0 where
  pub priority : ℕ
  pub status : TaskState
  pub sched_node : Ptr
  pub event_node : Ptr
  pub list_tx_done : Bool
  pub recovery_mode : Bool

-- A `Node<T>` at address `a` is `next a`, `prev a`, `list a`, `value a`; a `PList<T>` at `l` is
-- `len l`, `cursor l`, `head l`.
pub record Mem : Type 0 where
  pub next : Ptr → PLink
  pub prev : Ptr → PLink
  pub list : Ptr → PListLink
  pub value : Ptr → Item
  pub len : ListId → ℕ
  pub cursor : ListId → PLink
  pub head : ListId → PLink
  pub log : ListTxOpLog
  pub timer_log : ListTxOpLog
  pub tasks : TaskId → Task
  pub current : TaskId
  pub next_unblock_time : ℕ

-- `Priority`: a higher value has a lower priority.
unfoldable pub priority_gt : ℕ → ℕ → Bool
priority_gt a b = ltb a b

-- `>` of the items of one type: by wakeup time, by the task's priority, by expiry time. Items of two
-- types never meet in one list.
unfoldable pub item_gt : (TaskId → Task) → Item → Item → Bool
unfolding priority_gt
item_gt tasks (Item.sched _ a) (Item.sched _ b) = ltb b a
item_gt tasks (Item.blocked s _) (Item.blocked t _) =
    priority_gt (tasks s).priority (tasks t).priority
item_gt tasks (Item.timer _ a) (Item.timer _ b) = ltb b a
item_gt tasks _ _ = false
