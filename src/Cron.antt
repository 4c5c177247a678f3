-- ===== src/Cron.antt =====
-- The cron adapter (src/taskcontrol/adapters/schedulers/cron).
pub mod Artefact
pub mod Markers
pub mod Rendering
pub mod Regions
pub mod Block
