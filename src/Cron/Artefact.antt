-- ===== src/Cron/Artefact.antt =====
-- `DesiredArtefact` (src/taskcontrol/ports/scheduler_management.py): what is to be deployed.
use task_control.Deployment.Strategies.{DeploymentSpecification}
use task_control.Prelude.{String, Option}

pub record DesiredArtefact : Type 0 where
  pub task_id : String
  pub slug : String
  pub deployment : DeploymentSpecification
  pub command : String
  pub content_digest : String
  pub schedule : Option String
  pub description : String
