-- ===== src/Configuration.antt =====
-- Layered configuration (src/taskcontrol/domain/configuration/profiles.py).
pub mod Profile
pub mod Resolution
pub mod Steps
pub mod Precedence
pub mod Sorting
pub mod Ordering
pub mod Winning
