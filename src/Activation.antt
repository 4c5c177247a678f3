-- ===== src/Activation.antt =====
-- Activation without control state (src/taskcontrol/application/activation).
pub mod Journal
pub mod Replay
pub mod Service
pub mod Origins
pub mod Accounting
pub mod Degraded
