-- ===== src/Lib.antt =====
-- IntOS, a kernel for devices whose power may fail at any time. Its data stands in persistent memory,
-- and after each failure the boot finishes, or undoes, what was under way.
--
-- The parts, and the files that model them:
--   Pm          the memory. Pm/State has the nodes and the lists of src/list.rs by address, the items
--               and tasks of src/task.rs, and the two logs. Pm/Run has programs over it: each write
--               either ends or stops the run, when the power fails. Pm/Crash has the boots that follow,
--               each of which may fail again, and the rule that a recovery which keeps an invariant
--               until it reaches a memory reaches that memory, whatever the failures.
--   OpLog       `ListTxOpLog` of src/list.rs: the log of the list operation in progress. OpLog/Word has
--               the word with the opcode and the old length.
--   PList       `PList<T>` of src/list.rs: the operations and their recoveries, and the proofs for the
--               removal, the first node and the front.
--   PRing       `CircularPList<T>` of src/list.rs: the insertion before the cursor and the moves of
--               the cursor.
--   PSorted     `SortedPList<T>` of src/list.rs: the insertion in order and its recovery. The parts
--               below it follow the cases of the recovery.
--   Dll         what a list stands for: the addresses of its nodes in order, as a chain of links.
--   Sched       the ready lists, the delay list and the timer list, and the moves of a task, from
--               src/task.rs.
--   ListTx      the list transactions `atomic_roll_forward_*` of src/list.rs, and in ListTx/Recovery
--               and ListTx/Boot their recoveries, with the choice of src/recover.rs. ListTx/Switch,
--               ListTx/SwitchRecovery and ListTx/Switched follow the context switch, ListTx/Unlogged
--               the removal from the delay list.
--   Journal     `Journal` of src/pmem.rs: the undo log of a transaction, on bytes.
--   Queue       `Queue` of src/queue.rs: the ring of items, on bytes. Queue/Runs has sequences of
--               operations.
--   Messages    the calls of src/queue.rs that may block, over Queue: each pass of their loops is a step.
--               Messages/Woken has the runs of several tasks.
--   TxCache     `TxCache` of src/transaction.rs: the results of a task's transactions. TxCache/Fields
--               has the parts of its two words.
--   Transaction `Transaction` of src/transaction.rs and of src/user/transaction.rs, over Journal and
--               TxCache, as lists of atomic writes, and `user_recovery` of src/task.rs. Replay has the
--               runs of a task with power failures in them.
--   Loop        `UserTxInfo` of src/transaction.rs: loops of transactions whose iterations are not
--               replayed. Loop/Exit has the end of an iteration, by its writes, Loop/Overwritten the
--               results in front of a loop.
--   Syscall     `SyscallReplayCache`, `syscall_begin` and `syscall_end` of src/syscalls.rs, and their
--               part of `jit_recovery` of src/task.rs. Syscall/End and Syscall/Failures are about
--               failures, Syscall/Results about the replay.
--   Schedule    the scheduler of src/task.rs, on lists as sequences: the delay of a task, the tick and
--               the task switch. Schedule/OnTime follows a task that sleeps, Schedule/Round the turns
--               of the tasks, Schedule/Skips and Schedule/Starves a task that gets none.
--   Timers      the timer daemon of src/time.rs, on its list as a sequence: commands, expiry and turns.
--               Timers/Active and Timers/Turns have the invariant of the list, Timers/Expiry the calls
--               of expired timers, Timers/Endless a timer without a period.
--   Creation    `create_task_static` of src/task.rs in the first boot, which src/recover.rs repeats after
--               a power failure. Creation/Boots has the boots that fail.
--   Semaphore   `Semaphore` and `semaphore_take` of src/semaphore.rs. Semaphore/Blocking has the passes
--               of a take and `semaphore_give` on the wait list, as steps, Semaphore/Holders the tasks
--               that hold a semaphore, Semaphore/Deadline the time that a take waits.
--   Events      `EventGroup` of src/event_group.rs: Events/Words has the words of the waiting tasks,
--               Events/Woken the setter, Events/Rerun a failure in it, Events/Meeting the
--               synchronisation.
--   Critical    the critical sections of src/critical.rs, nested to any depth.
--   Heap        the bump allocators of src/heap.rs, and the heap of each task.
--   PQueue      `PQueue` of src/user/pqueue.rs, as a bounded list, and in a transaction that is rolled
--               back.
--   Util        `bubble_sort` of src/util.rs.
--   Base        names of the libraries, Boolean tests, lists, maps and bits.
--   Tests       the operations and theorems at concrete inputs.
--
-- How the code corresponds: the functions keep their names. A pointer is a number, a static list a
-- fixed address, and a `&mut` argument the address that it comes from. A panic, a failed assertion
-- and undefined behaviour (`unwrap_unchecked` of `None`, `transmute` of a number that is no opcode)
-- are one result, `panicked`. `compiler_pm_fence` keeps the order of the writes, which the model has
-- anyway; `debug_assert!` is not compiled into a release. The features are the default ones with
-- `opt_list` and `crash_safe`, on a machine of 32 bits, whose lengths wrap around.
--
-- Fuel: the search of the sorted insertion takes one unit for each node, and gets one more than the
-- length; the loop of `Journal::recover` gets one unit for each byte of the log. The theorems give a
-- result, so these are enough. The other loops need none: a task that waits for a semaphore gets the
-- list of its wakes, and the runs of a task with power failures in them are lists of attempts.
--
-- Not modelled: the list operations with a journal (without `opt_list`), the transactions that are not
-- replayed, the stack and the entry point of a task, the library for user code except its `run` and
-- queues, the choice to yield at the end of a call that wakes tasks, the hardware, and the benchmarks.
pub mod Base
pub mod Creation
pub mod Critical
pub mod Dll
pub mod Events
pub mod Heap
pub mod Journal
pub mod ListTx
pub mod Loop
pub mod Messages
pub mod OpLog
pub mod PList
pub mod PQueue
pub mod PRing
pub mod PSorted
pub mod Pm
pub mod Queue
pub mod Replay
pub mod Sched
pub mod Schedule
pub mod Semaphore
pub mod Syscall
pub mod Tests
pub mod Timers
pub mod Transaction
pub mod TxCache
pub mod Util
