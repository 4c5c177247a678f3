-- ===== src/Tests.antt =====
-- The theorems of the library at concrete inputs, by the part of the program that they are about.
mod Executions
mod Policies
mod Claims
mod Tasks
mod Runs
mod Schedules
mod Locks
mod Revisions
mod Activations
mod Configurations
mod Crontabs
