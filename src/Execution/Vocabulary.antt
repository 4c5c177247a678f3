-- ===== src/Execution/Vocabulary.antt =====
-- Execution states and outcomes (src/taskcontrol/domain/execution/vocabulary.py). The frozensets
-- and dictionaries of the source are functions by clauses.
use task_control.Errors.{Result, ok, domain_rule_violation_error}
use task_control.Prelude.{String, Bool, true, false, [], ◌∷◌, concat, if◌then◌else◌}

pub data ExecutionState : Type 0 where
  pending evaluating running cancelling finished : ExecutionState

pub data ExecutionOutcome : Type 0 where
  succeeded failed launch_failed outcome_failed timed_out cancelled : ExecutionOutcome
  skipped blocked condition_error infrastructure_failed unknown : ExecutionOutcome

pub data RetryEligibility : Type 0 where
  never always by_policy : RetryEligibility

-- `str(state)`
abbrev pub state_value : ExecutionState → String
state_value pending = "pending"
state_value evaluating = "evaluating"
state_value running = "running"
state_value cancelling = "cancelling"
state_value finished = "finished"

-- `str(outcome)`, which is also the namespace of its reason codes
abbrev pub outcome_value : ExecutionOutcome → String
outcome_value succeeded = "succeeded"
outcome_value failed = "failed"
outcome_value launch_failed = "launch_failed"
outcome_value outcome_failed = "outcome_failed"
outcome_value timed_out = "timed_out"
outcome_value cancelled = "cancelled"
outcome_value skipped = "skipped"
outcome_value blocked = "blocked"
outcome_value condition_error = "condition_error"
outcome_value infrastructure_failed = "infrastructure_failed"
outcome_value unknown = "unknown"

abbrev pub is_terminal : ExecutionState → Bool
is_terminal finished = true
is_terminal _ = false

abbrev pub requires_outcome : ExecutionState → Bool
requires_outcome s = is_terminal s

abbrev pub is_success : ExecutionOutcome → Bool
is_success succeeded = true
is_success _ = false

-- `_OUTCOMES_THAT_RAN`
abbrev pub outcome_ran : ExecutionOutcome → Bool
outcome_ran succeeded = true
outcome_ran failed = true
outcome_ran outcome_failed = true
outcome_ran timed_out = true
outcome_ran cancelled = true
outcome_ran _ = false

-- `_OUTCOMES_REQUIRING_REASON`
abbrev pub requires_reason_code : ExecutionOutcome → Bool
requires_reason_code skipped = true
requires_reason_code blocked = true
requires_reason_code condition_error = true
requires_reason_code infrastructure_failed = true
requires_reason_code timed_out = true
requires_reason_code cancelled = true
requires_reason_code _ = false

-- `_OUTCOMES_PERMITTING_REASON`: those, and `failed`
abbrev pub permits_reason_code : ExecutionOutcome → Bool
permits_reason_code failed = true
permits_reason_code o = requires_reason_code o

-- `_RETRY_ELIGIBILITY`
abbrev pub retry_eligibility : ExecutionOutcome → RetryEligibility
retry_eligibility succeeded = never
retry_eligibility failed = always
retry_eligibility launch_failed = always
retry_eligibility outcome_failed = by_policy
retry_eligibility timed_out = by_policy
retry_eligibility cancelled = never
retry_eligibility skipped = never
retry_eligibility blocked = never
retry_eligibility condition_error = always
retry_eligibility infrastructure_failed = always
retry_eligibility unknown = never

-- `proposed in _LEGAL_TRANSITIONS[current]`
abbrev pub is_legal_transition : ExecutionState → ExecutionState → Bool
is_legal_transition pending evaluating = true
is_legal_transition pending finished = true
is_legal_transition evaluating running = true
is_legal_transition evaluating finished = true
is_legal_transition running cancelling = true
is_legal_transition running finished = true
is_legal_transition cancelling finished = true
is_legal_transition _ _ = false

unfoldable pub assert_legal_transition : ExecutionState → ExecutionState → Result (Unit {0})
assert_legal_transition current proposed =
    if is_legal_transition current proposed
    then ok tt
    else domain_rule_violation_error (
        concat (
          "Cannot move an execution from "
          ∷ state_value current
          ∷ " to "
          ∷ state_value proposed
          ∷ "."
          ∷ []))
