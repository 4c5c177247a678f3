-- ===== src/Policies.antt =====
-- Decision policies (src/taskcontrol/domain/policies).
pub mod Classification
pub mod Evidence
