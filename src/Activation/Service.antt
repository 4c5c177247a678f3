-- ===== src/Activation/Service.antt =====
-- `ActivationService` (src/taskcontrol/application/activation/service.py) with the parts of
-- `InstalledRevision` (src/taskcontrol/domain/deployment/manifest.py) that it reads. The manifests, the
-- journal and the way to a runtime are ports, parameters of the model. Logging is left out.
use task_control.Activation.Journal.{JournalEntry}
use task_control.Errors.{
  Exception, error, unexpected, Result, ok, raise, is_infrastructure_error,
  transient_infrastructure_failure,
}
use task_control.Execution.Record.{TriggerSource}
use task_control.Execution.Vocabulary.{ExecutionOutcome, is_success}
use task_control.Policies.Classification.{classify_process_result}
use task_control.Prelude.{
  ℕ, String, Bool, true, false, not, Option, none, some, List, [], ◌∷◌, any, is_some, if◌then◌else◌,
  concat,
}
use task_control.Runtime.Attempts.{RunRequest, literals}
use task_control.Runtime.Service.{RunResult, run}
use task_control.Runtime.World.{
  ActionSpecification, ExecutionControls, ExecutionRequest, ExecutionReport, Environment, World,
  Action, ◌>>=◌, ◌>>◌, return, lift, read_clock, generate_id, get_executor, run_process,
}
use task_control.Values.{Timestamp}

abbrev pub exit_success : ℕ
exit_success = 0

abbrev pub exit_failed : ℕ
exit_failed = 1

abbrev pub exit_declined : ℕ
exit_declined = 75

abbrev pub exit_unrecorded : ℕ
exit_unrecorded = 70

pub record ActivationResult : Type 0 where
  pub exit_code : ℕ
  pub outcome : Option ExecutionOutcome
  pub degraded : Bool
  pub journalled : Bool
  pub explanation : String

pub data ActivationPolicy : Type 0 where
  require_control_state continue_with_local_journal : ActivationPolicy

abbrev pub executes_without_control_state : ActivationPolicy → Bool
executes_without_control_state require_control_state = false
executes_without_control_state continue_with_local_journal = true

-- `controls.activation_policy` stands beside the controls that the runtime reads.
pub record InstalledRevision : Type 0 where
  pub task_id : String
  pub slug : String
  pub revision_id : String
  pub content_digest : String
  pub action : ActionSpecification
  pub controls : ExecutionControls
  pub activation_policy : ActivationPolicy

unfoldable pub requires_unresolvable_secrets : InstalledRevision → Bool
requires_unresolvable_secrets installed = any (λ b. is_some b.secret) installed.action.environment

-- What the service is given: the runtime's environment, the reader of manifests, the journal with a
-- state of its own, and what building the runtime comes to.
pub record Site (L J : Type 0) : Type 0 where
  pub env : Environment L
  pub load : String → Result InstalledRevision
  pub append : JournalEntry → J → Result (Unit {0}) × J
  pub runtime_factory : Result (Unit {0})

pub record Host (L J : Type 0) : Type 0 where
  pub world : World L
  pub journal : J

abbrev pub exit_code_of : ExecutionOutcome → ℕ
exit_code_of outcome = if is_success outcome then exit_success else exit_failed

-- what `activate` returns for a recorded run; `result.succeeded` asserts that there is an outcome
unfoldable pub recorded_result : RunResult → Result ActivationResult
recorded_result result = elim result.execution.outcome [
  | none ↦ raise unexpected
  | some outcome ↦ ok (record {
    exit_code = exit_code_of outcome;
    outcome = some outcome;
    degraded = false;
    journalled = false;
    explanation = result.execution.explanation;
  })
]

abbrev pub declined : String → ActivationResult
declined explanation = record {
  exit_code = exit_declined;
  outcome = none;
  degraded = true;
  journalled = false;
  explanation = explanation;
}

abbrev pub refusal : InstalledRevision → String
refusal installed = concat (
    "'" ∷ installed.slug
    ∷ "' requires a durable record of every run, and TaskControl's control state is unreachable. The work was not started. It will be reconciled as an infrastructure failure once the database returns."
    ∷ [])

abbrev pub secrets_refusal : InstalledRevision → String
secrets_refusal installed = concat (
    "'" ∷ installed.slug
    ∷ "' needs secrets that only the control plane can resolve, and it is unreachable. Running with an incomplete environment would look like success, so the work was not started."
    ∷ [])

-- `_local_environment`
unfoldable pub local_environment : InstalledRevision → List (String × String)
local_environment installed = literals installed.action.environment

abbrev pub run_request : InstalledRevision → TriggerSource → RunRequest
run_request installed trigger_source = record {
  task_id = installed.task_id;
  trigger_source = trigger_source;
  requested_by = none;
  correlation_id = none;
  idempotency_key = none;
  environment_overrides = [];
}

abbrev pub local_request : InstalledRevision → ExecutionRequest
local_request installed = record {
  action = installed.action;
  environment = local_environment installed;
  timeout = installed.controls.timeout.run_timeout;
  termination_grace = installed.controls.timeout.termination_grace;
}

unfoldable pub entry_for :
    InstalledRevision
    → TriggerSource
    → String
    → Timestamp
    → Timestamp
    → ExecutionReport
    → JournalEntry
entry_for installed trigger_source execution_id started_at finished_at report =
    let classification = classify_process_result report.result none none in
    record {
      execution_id = execution_id;
      task_id = installed.task_id;
      slug = installed.slug;
      revision_id = installed.revision_id;
      content_digest = installed.content_digest;
      trigger_source = trigger_source;
      started_at = started_at;
      finished_at = finished_at;
      outcome = classification.outcome;
      reason_code = classification.reason_code;
      exit_code = report.result.exit_code;
      signal_number = report.result.signal_number;
      termination_cause = report.result.termination_cause;
      explanation = concat (
          classification.explanation
          ∷ " Run without the control plane, so no overlap protection was in force." ∷ []);
    }

unfoldable pub journalled_result : JournalEntry → ActivationResult
journalled_result entry = record {
  exit_code = exit_code_of entry.outcome;
  outcome = some entry.outcome;
  degraded = true;
  journalled = true;
  explanation = entry.explanation;
}

unfoldable pub unrecorded_result : JournalEntry → ActivationResult
unrecorded_result entry = record {
  exit_code = exit_unrecorded;
  outcome = some entry.outcome;
  degraded = true;
  journalled = false;
  explanation = concat (
      "'" ∷ entry.slug
      ∷ "' ran, and TaskControl could not record that it ran. Treat this run as having happened; there is no record of it."
      ∷ []);
}

-- `except TransientInfrastructureError`
abbrev pub is_transient : Exception → Bool
is_transient (error transient_infrastructure_failure _) = true
is_transient _ = false

module _ {L J : Type 0} (site : Site L J) where
  -- `_run_and_journal` up to its entry
  unfoldable pub run_locally : InstalledRevision → TriggerSource → Action L JournalEntry
  unfolding entry_for
  run_locally installed trigger_source = do
    execution_id ← generate_id site.env
    started_at ← read_clock site.env
    executor ← lift (get_executor site.env installed.action.executor_type)
    report ← run_process site.env executor (local_request installed)
    finished_at ← read_clock site.env
    return (entry_for installed trigger_source execution_id started_at finished_at report)

  -- what the attempt to write the journal comes to
  abbrev pub appended :
      JournalEntry → World L → Result (Unit {0}) × J → Result ActivationResult × Host L J
  appended entry w (ok _, j) = (ok (journalled_result entry), record { world = w; journal = j })
  appended entry w (raise e, j) = (
    if is_transient e then ok (unrecorded_result entry) else raise e,
    record { world = w; journal = j },
  )

  abbrev pub write_entry : J → Result JournalEntry × World L → Result ActivationResult × Host L J
  write_entry j (raise e, w) = (raise e, record { world = w; journal = j })
  write_entry j (ok entry, w) = appended entry w (site.append entry j)

  -- `_run_and_journal`
  unfoldable pub run_and_journal :
      InstalledRevision → TriggerSource → Host L J → Result ActivationResult × Host L J
  run_and_journal installed trigger_source h =
      write_entry h.journal (run_locally installed trigger_source h.world)

  -- `_activate_degraded`
  unfoldable pub activate_degraded :
      InstalledRevision → TriggerSource → Host L J → Result ActivationResult × Host L J
  unfolding requires_unresolvable_secrets
  activate_degraded installed trigger_source h =
      if not (executes_without_control_state installed.activation_policy)
      then (ok (declined (refusal installed)), h)
      else if requires_unresolvable_secrets installed
      then (ok (declined (secrets_refusal installed)), h)
      else run_and_journal installed trigger_source h

  -- the `try` block of `activate`
  abbrev pub run_recorded : InstalledRevision → TriggerSource → Action L RunResult
  run_recorded installed trigger_source = do
    lift site.runtime_factory
    run site.env (run_request installed trigger_source)

  -- what follows it
  abbrev pub after_run :
      InstalledRevision
      → TriggerSource
      → J
      → Result RunResult × World L
      → Result ActivationResult × Host L J
  after_run installed trigger_source j (ok result, w) =
      (recorded_result result, record { world = w; journal = j })
  after_run installed trigger_source j (raise e, w) =
      if is_infrastructure_error e
      then activate_degraded installed trigger_source (record { world = w; journal = j })
      else (raise e, record { world = w; journal = j })

  -- `activate` once the manifest is read
  abbrev pub activate_installed :
      TriggerSource → Host L J → Result InstalledRevision → Result ActivationResult × Host L J
  activate_installed trigger_source h (raise e) = (raise e, h)
  activate_installed trigger_source h (ok installed) =
      after_run installed trigger_source h.journal (run_recorded installed trigger_source h.world)

  -- `activate`
  unfoldable pub activate : String → TriggerSource → Host L J → Result ActivationResult × Host L J
  activate slug trigger_source h = activate_installed trigger_source h (site.load slug)
