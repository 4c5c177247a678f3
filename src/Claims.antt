-- ===== src/Claims.antt =====
-- Claims: durable, time-bounded ownership of a subject, and the overlap locks over them.
pub mod Claim
pub mod Store
pub mod Rows
pub mod Operations
pub mod Leases
pub mod Schedule
mod Effects
mod Changes
pub mod Granting
mod Soundness
pub mod Fencing
pub mod Exclusion
