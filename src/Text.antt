-- ===== src/Text.antt =====
-- Python's texts by lines and by patterns, as the cron adapter reads them
-- (src/taskcontrol/adapters/schedulers/cron): `str.splitlines`, `str.split`, `str.join` and the part
-- of `re` that its patterns use.
pub mod Lines
pub mod Splitting
pub mod Stability
pub mod Words
pub mod Patterns
pub mod Matching
