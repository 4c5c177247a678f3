-- ===== src/Persistence.antt =====
-- The stored executions (src/taskcontrol/adapters/persistence).
pub mod Executions
pub mod Attempts
pub mod Rows
pub mod Adding
pub mod Merging
pub mod Saving
