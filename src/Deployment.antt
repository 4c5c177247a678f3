-- ===== src/Deployment.antt =====
-- Where a managed artefact lives and what shape it takes
-- (src/taskcontrol/domain/deployment).
pub mod Strategies
