-- ===== src/Tasks.antt =====
-- Tasks: identity and lifecycle, and the revisions that say what runs
-- (src/taskcontrol/domain/tasks).
pub mod Lifecycle
pub mod Task
pub mod Availability
pub mod Secrets
pub mod Revision
pub mod Publication
