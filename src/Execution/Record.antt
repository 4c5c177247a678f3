-- ===== src/Execution/Record.antt =====
-- `Execution` (src/taskcontrol/domain/execution/execution.py). The objects
-- are frozen, so each method returns a new one. `replace` runs `__post_init__` again, and so does
-- each method here. Identifiers are texts.
use task_control.Errors.{Result, ok, validation_failed, domain_rule_violation, raise_if, ◌>>◌}
use task_control.Execution.Attempt.{ExecutionAttempt}
use task_control.Execution.Reasons.{ReasonCode, matches}
use task_control.Execution.Vocabulary.{
  ExecutionState, pending, running, cancelling, finished, ExecutionOutcome, is_terminal,
  requires_outcome, requires_reason_code, outcome_value, assert_legal_transition,
}
use task_control.Prelude.{
  ℕ, ◌+◌, String, Bool, false, not, ◌&&◌, Option, none, some, List, [], ◌∷◌, ◌++◌, ltb, ◌==◌,
  is_some, or_else, str_eq, len, concat, length, get_last?, drop_last,
}
use task_control.Values.{Timestamp}

abbrev pub max_explanation_length : ℕ
max_explanation_length = 4000

pub data TriggerSource : Type 0 where
  manual schedule api retry : TriggerSource

pub record Execution : Type 0 where
  pub execution_id : String
  pub task_id : String
  pub revision_id : String
  pub trigger_source : TriggerSource
  pub requested_at : Timestamp
  pub state : ExecutionState
  pub outcome : Option ExecutionOutcome
  pub reason_code : Option ReasonCode
  pub explanation : String
  pub attempts : List ExecutionAttempt
  pub started_at : Option Timestamp
  pub finished_at : Option Timestamp
  pub correlation_id : Option String
  pub idempotency_key : Option String
  pub requested_by : Option String
  pub configuration_digest : Option String

validate_reason : Option ExecutionOutcome → Option ReasonCode → Result (Unit {0})
validate_reason none reason = ok tt
validate_reason (some o) none = raise_if (requires_reason_code o) validation_failed (
    concat (
      "Outcome "
      ∷ outcome_value o
      ∷ " requires a reason code; without one the result cannot be explained."
      ∷ []))
validate_reason (some o) (some code) =
    raise_if (requires_reason_code o && not (matches code o)) validation_failed
      "The reason code does not belong to this outcome."

-- `Execution.__post_init__`, run on every constructed value
unfoldable pub validate_execution : Execution → Result Execution
unfolding validate_reason
validate_execution e = do
  raise_if (requires_outcome e.state && not (is_some e.outcome)) validation_failed
      "A finished execution must record its outcome. An execution that ends without one is invisible to an operator."
  raise_if (not (requires_outcome e.state) && is_some e.outcome) validation_failed
      "Only a finished execution carries an outcome."
  validate_reason e.outcome e.reason_code
  raise_if (ltb max_explanation_length (len e.explanation)) validation_failed
      "Execution explanation is too long."
  ok e

-- what `Execution.requested` is given; the identifiers that it may generate are arguments too
pub record Requested : Type 0 where
  pub execution_id : String
  pub task_id : String
  pub revision_id : String
  pub trigger_source : TriggerSource
  pub requested_at : Timestamp
  pub correlation_id : Option String
  pub idempotency_key : Option String
  pub requested_by : Option String

-- `Execution.requested`
unfoldable pub requested : Requested → Result Execution
unfolding validate_execution
requested r = validate_execution (record {
  execution_id = r.execution_id;
  task_id = r.task_id;
  revision_id = r.revision_id;
  trigger_source = r.trigger_source;
  requested_at = r.requested_at;
  state = pending;
  outcome = none;
  reason_code = none;
  explanation = "";
  attempts = [];
  started_at = none;
  finished_at = none;
  correlation_id = r.correlation_id;
  idempotency_key = r.idempotency_key;
  requested_by = r.requested_by;
  configuration_digest = none;
})

abbrev pub is_finished : Execution → Bool
is_finished e = is_terminal e.state

abbrev pub attempt_count : Execution → ℕ
attempt_count e = length e.attempts

unfoldable pub transition_to : Execution → ExecutionState → Result Execution
unfolding validate_execution assert_legal_transition
transition_to e state = do
  assert_legal_transition e.state state
  raise_if (requires_outcome state) domain_rule_violation
      "Finish an execution with finish(), which requires an outcome."
  validate_execution (record e { state = state })

unfoldable pub begin_attempt : Execution → ExecutionAttempt → Timestamp → Result Execution
unfolding validate_execution
begin_attempt e attempt started_at = do
  raise_if (is_finished e) domain_rule_violation
      "A finished execution cannot start another attempt."
  raise_if (not (attempt.attempt_number == attempt_count e + 1)) domain_rule_violation
      "Attempts are numbered consecutively from 1."
  validate_execution (record e {
    state = running;
    attempts = e.attempts ++ attempt ∷ [];
    started_at = some (or_else e.started_at started_at);
  })

is_latest : Option ExecutionAttempt → ExecutionAttempt → Bool
is_latest none attempt = false
is_latest (some latest) attempt = str_eq latest.attempt_id attempt.attempt_id

unfoldable pub record_attempt_result : Execution → ExecutionAttempt → Result Execution
unfolding validate_execution is_latest
record_attempt_result e attempt = do
  raise_if (not (is_latest (get_last? e.attempts) attempt)) domain_rule_violation
      "Only the latest attempt of this execution can be updated."
  validate_execution (record e { attempts = drop_last e.attempts ++ attempt ∷ [] })

unfoldable pub request_cancellation : Execution → Result Execution
unfolding validate_execution assert_legal_transition
request_cancellation e = do
  assert_legal_transition e.state cancelling
  validate_execution (record e { state = cancelling })

unfoldable pub finish :
    Execution → ExecutionOutcome → Timestamp → Option ReasonCode → String → Result Execution
unfolding validate_execution assert_legal_transition
finish e outcome finished_at reason_code explanation = do
  raise_if (is_finished e) domain_rule_violation
      "This execution has already finished. Its outcome is immutable."
  assert_legal_transition e.state finished
  validate_execution (record e {
    state = finished;
    outcome = some outcome;
    reason_code = reason_code;
    explanation = explanation;
    finished_at = some finished_at;
  })
