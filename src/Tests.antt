-- ===== src/Tests.antt =====
-- Runs of the models at concrete inputs, and the theorems there.
pub mod Lists
pub mod Pmem
pub mod Queues
pub mod Moves
pub mod Replays
pub mod Loops
pub mod Semaphores
pub mod Utils
pub mod Heaps
pub mod Syscalls
pub mod Groups
pub mod Sections
pub mod Rings
pub mod Schedules
pub mod Alarms
pub mod Exchange
pub mod Creations
