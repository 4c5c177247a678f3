-- ===== src/Execution.antt =====
-- Executions: the vocabulary, process results and policies, and the record of what happened
-- (src/taskcontrol/domain/execution).
pub mod Vocabulary
pub mod Reasons
pub mod Results
pub mod Retries
pub mod Attempt
pub mod Record
pub mod Invariant
pub mod Lifecycle
pub mod Transitions
pub mod Namespaces
pub mod Delays
pub mod Loading
