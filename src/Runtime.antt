-- ===== src/Runtime.antt =====
-- The execution runtime (src/taskcontrol/application/runtime/service.py).
pub mod World
pub mod Attempts
pub mod Service
pub mod Keeping
pub mod Running
pub mod Ending
pub mod Closing
pub mod Terminal
pub mod Runs
mod Counting
pub mod Retrying
pub mod Blocking
