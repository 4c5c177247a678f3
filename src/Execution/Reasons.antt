-- ===== src/Execution/Reasons.antt =====
-- Reason codes, namespaced by outcome (`ReasonCode` and `ReasonCodes` of
-- src/taskcontrol/domain/execution/vocabulary.py).
use task_control.Errors.{Result, ok, validation_error}
use task_control.Execution.Vocabulary.{
  ExecutionOutcome, succeeded, failed, launch_failed, outcome_failed, timed_out, cancelled, skipped,
  blocked, condition_error, infrastructure_failed, unknown, outcome_value, permits_reason_code,
}
use task_control.Prelude.{
  String, Bool, false, not, ◌&&◌, ◌||◌, Option, none, some, List, [], ◌∷◌, if◌then◌else◌, any,
  str_eq, partition,
}

pub record ReasonCode : Type 0 where
  pub value : String

abbrev pub all_outcomes : List ExecutionOutcome
all_outcomes =
    succeeded ∷ failed ∷ launch_failed ∷ outcome_failed ∷ timed_out ∷ cancelled ∷ skipped ∷ blocked
    ∷ condition_error ∷ infrastructure_failed ∷ unknown ∷ []

find_outcome : String → List ExecutionOutcome → Option ExecutionOutcome
find_outcome name [] = none
find_outcome name (o ∷ os) = if str_eq name (outcome_value o) then some o else find_outcome name os

-- `ExecutionOutcome(name)`: the member with that value
unfoldable pub outcome_of_value : String → Option ExecutionOutcome
unfolding find_outcome
outcome_of_value name = find_outcome name all_outcomes

-- `namespace in {outcome.value for outcome in _OUTCOMES_PERMITTING_REASON}`
unfoldable pub is_permitted_namespace : String → Bool
is_permitted_namespace name =
    any (λ o. permits_reason_code o && str_eq name (outcome_value o)) all_outcomes

-- `ReasonCode(value)`
unfoldable pub make_reason_code : String → Result ReasonCode
unfolding partition is_permitted_namespace
make_reason_code value =
    let (namespace, separator, detail) = partition b'.' value in
    if str_eq value ""
    then validation_error "ReasonCode must be a non-empty string."
    else if not separator || str_eq detail ""
    then validation_error "ReasonCode must be namespaced as '<outcome>.<reason>'."
    else if not (is_permitted_namespace namespace)
    then validation_error "ReasonCode namespace must be an outcome that carries reason codes."
    else ok (record { value = value })

-- the property `outcome`; `none` where `ExecutionOutcome(...)` raises
unfoldable pub code_outcome : ReasonCode → Option ExecutionOutcome
unfolding outcome_of_value partition
code_outcome code = outcome_of_value (partition b'.' code.value).0

same_outcome : Option ExecutionOutcome → ExecutionOutcome → Bool
same_outcome none o = false
same_outcome (some o') o = str_eq (outcome_value o') (outcome_value o)

-- `matches`
unfoldable pub matches : ReasonCode → ExecutionOutcome → Bool
unfolding same_outcome code_outcome
matches code outcome = same_outcome (code_outcome code) outcome

-- `ReasonCodes`
abbrev pub blocked_overlap_lock_held : ReasonCode
blocked_overlap_lock_held = record { value = "blocked.overlap_lock_held" }

abbrev pub infrastructure_executor_unavailable : ReasonCode
infrastructure_executor_unavailable = record {
  value = "infrastructure_failed.executor_unavailable";
}

abbrev pub timed_out_run_timeout_exceeded : ReasonCode
timed_out_run_timeout_exceeded = record { value = "timed_out.run_timeout_exceeded" }

abbrev pub cancelled_requested_by_user : ReasonCode
cancelled_requested_by_user = record { value = "cancelled.requested_by_user" }

abbrev pub cancelled_superseded : ReasonCode
cancelled_superseded = record { value = "cancelled.superseded" }

abbrev pub failed_terminated_externally : ReasonCode
failed_terminated_externally = record { value = "failed.terminated_externally" }
