-- ===== src/Runtime/Attempts.antt =====
-- The attempts of one run: `_save`, `_finish`, `_run_attempts` and `_resolve_environment` of
-- `RuntimeService` (src/taskcontrol/application/runtime/service.py). Logging is left out. `while
-- True` runs on fuel.
use task_control.Errors.{out_of_fuel, Result, ok, raise, validation_error}
use task_control.Execution.Attempt
use task_control.Execution.Attempt.{ExecutionAttempt, new_attempt}
use task_control.Execution.Reasons.{ReasonCode}
use task_control.Execution.Record.{
  Execution, TriggerSource, attempt_count, begin_attempt, record_attempt_result, finish,
}
use task_control.Execution.Vocabulary.{ExecutionOutcome}
use task_control.Persistence.Executions.{Table, save}
use task_control.Policies.Classification.{
  Classification, classify_process_result, RetryDecision, decide_retry,
}
use task_control.Prelude.{
  ℕ, zero, suc, ◌+◌, String, true, false, Option, none, some, List, [], ◌∷◌, any, is_some,
  if◌then◌else◌, str_eq, concat, strip,
}
use task_control.Runtime.World.{
  ExecutionRequest, EnvironmentBinding, TaskRevision, Executor, Environment, Action, ◌>>=◌, ◌>>◌,
  return, lift, read_clock, generate_id, transaction, get_executor, run_process,
}

pub record RunRequest : Type 0 where
  pub task_id : String
  pub trigger_source : TriggerSource
  pub requested_by : Option String
  pub correlation_id : Option String
  pub idempotency_key : Option String
  pub environment_overrides : List (String × String)

-- `dict[name] = value`: a key that is there keeps its place
unfoldable assign : String → String → List (String × String) → List (String × String)
assign name value [] = (name, value) ∷ []
assign name value ((n, v) ∷ rest) =
    if str_eq n name then (n, value) ∷ rest else (n, v) ∷ assign name value rest

-- `dict.update`
unfoldable update : List (String × String) → List (String × String) → List (String × String)
unfolding assign
update environment [] = environment
update environment ((name, value) ∷ rest) = update (assign name value environment) rest

unfoldable pub literals : List EnvironmentBinding → List (String × String)
unfolding assign
literals bindings = go bindings []
  where
    go : List EnvironmentBinding → List (String × String) → List (String × String)
    go [] found = found
    go (b ∷ rest) found = elim b.value [
      | none ↦ go rest found
      | some value ↦ go rest (assign b.name value found)
    ]

-- `_resolve_environment`
unfoldable pub resolve_environment : TaskRevision → RunRequest → Result (List (String × String))
unfolding literals update
resolve_environment revision request =
    if any (λ b. is_some b.secret) revision.action.environment
    then validation_error
        "This revision references secrets, and secret resolution is not available in this build. Running it would either invent a value or silently drop the binding."
    else ok (update (literals revision.action.environment) request.environment_overrides)

-- `f"{classification.explanation} {retry.reason}".strip()`
abbrev pub explain : Classification → RetryDecision → String
explain c retry = strip (concat (c.explanation ∷ " " ∷ retry.reason ∷ []))

-- a repository call that only changes the table
abbrev pub stores : Result Table → Result (Unit {0} × Table)
stores (ok t) = ok (tt, t)
stores (raise x) = raise x

abbrev pub request_for : TaskRevision → List (String × String) → ExecutionRequest
request_for revision environment = record {
  action = revision.action;
  environment = environment;
  timeout = revision.controls.timeout.run_timeout;
  termination_grace = revision.controls.timeout.termination_grace;
}

module _ {L : Type 0} (env : Environment L) where
  -- `_save`
  unfoldable pub save_execution : Execution → Action L Execution
  save_execution e = do transaction env (λ t. stores (save e t)); return e

  -- `_finish`
  unfoldable pub finish_execution :
      Execution → ExecutionOutcome → Option ReasonCode → String → Action L Execution
  unfolding save_execution
  finish_execution e outcome reason_code explanation = do
    now ← read_clock env
    finished ← lift (finish e outcome now reason_code explanation)
    save_execution finished

  -- the body of the loop of `_run_attempts` up to the retry decision
  unfoldable pub run_attempt :
      Execution
      → TaskRevision
      → Executor
      → List (String × String)
      → Action L (Execution × Classification × RetryDecision)
  unfolding save_execution
  run_attempt e revision executor environment = do
    started_at ← read_clock env
    attempt_id ← generate_id env
    attempt ← lift (
        new_attempt attempt_id e.execution_id (attempt_count e + 1) started_at
          revision.action.executor_type)
    begun ← lift (begin_attempt e attempt started_at)
    running ← save_execution begun
    report ← run_process env executor (request_for revision environment)
    finished_at ← read_clock env
    finished ← lift (Attempt.finish attempt report.result finished_at report.stdout report.stderr)
    recorded ← lift (record_attempt_result running finished)
    saved ← save_execution recorded
    let classification = classify_process_result report.result none none in
        return (
          saved,
          classification,
          decide_retry classification.outcome revision.controls.retry (attempt_count saved),
        )

  -- `while True` of `_run_attempts`
  unfoldable pub run_loop :
      ℕ → Execution → TaskRevision → Executor → List (String × String) → Action L Execution
  unfolding run_attempt finish_execution
  run_loop zero e revision executor environment = lift (raise out_of_fuel)
  run_loop (suc fuel) e revision executor environment = do
    (saved, classification, retry) ← run_attempt e revision executor environment
    elim retry.should_retry [
      | true ↦ run_loop fuel saved revision executor environment
      | false ↦
          finish_execution saved classification.outcome classification.reason_code
            (explain classification retry)
    ]

  -- `_run_attempts`
  unfoldable pub run_attempts : Execution → TaskRevision → RunRequest → Action L Execution
  unfolding run_loop resolve_environment
  run_attempts e revision request = do
    executor ← lift (get_executor env revision.action.executor_type)
    environment ← lift (resolve_environment revision request)
    run_loop revision.controls.retry.max_attempts e revision executor environment
