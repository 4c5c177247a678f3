-- ===== src/Scheduling.antt =====
-- When a task is considered and whether it may run (src/taskcontrol/domain/scheduling/).
pub mod Schedules
pub mod Calendars
pub mod Conditions
pub mod Intervals
pub mod Eligibility
