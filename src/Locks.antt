-- ===== src/Locks.antt =====
-- The overlap locks (src/taskcontrol/adapters/locking).
pub mod ProcessLocal
pub mod Handles
pub mod Durable
pub mod Leasing
