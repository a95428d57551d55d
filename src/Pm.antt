-- ===== src/Pm.antt =====
-- Persistent memory and programs that a power failure may stop. Each assignment of the source to
-- persistent memory is one write, which is kept or lost as a whole; writes reach the memory in
-- program order, which `compiler_pm_fence` asks for at the places that need it.
pub mod State
pub mod Run
pub mod Crash
