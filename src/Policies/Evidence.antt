-- ===== src/Policies/Evidence.antt =====
-- What classification and the retry decision promise
-- (src/taskcontrol/domain/policies/classification.py).
use task_control.Errors.{ok}
use task_control.Execution.Invariant.{Explains}
use task_control.Execution.Reasons.{ReasonCode, matches}
use task_control.Execution.Results.{
  ProcessResult, TerminationCause, run_timeout, exited, not_terminated, validate_result,
  is_not_started, is_abandoned, is_signalled, was_terminated,
}
use task_control.Execution.Retries.{RetryPolicy}
use task_control.Execution.Vocabulary.{
  ExecutionOutcome, succeeded, outcome_failed, timed_out, skipped, blocked, condition_error,
  infrastructure_failed, retry_eligibility, always,
}
use task_control.Policies.Classification.{
  Classification, classify_exit, termination_explanation, terminated_outcome, ExpectationEvidence,
  no_evidence, all_required_passed, classify_process_result, is_expected, decide_retry,
}
use task_control.Prelude.{
  ℕ, ◌+◌, ◌≤◌, ◌<◌, ◌≡◌, ◌≢◌, ◌↔◌, ◌⊎◌, String, not, ltb, if_elim, true, false, Option, none, some,
  List, [], ◌∷◌, arith, or_else,
}
use task_control.Values.{duration_text}

-- A result that its own constructor accepts is classified as succeeded exactly when the process
-- exited, nothing ended it, its exit code is one of the expected codes (0 where none are given),
-- and every required expectation passed with no evaluator in error.
pub success_exact :
    (r : ProcessResult) (e : Option ExpectationEvidence) (codes : Option (List ℕ))
    → validate_result r ≡ ok r
    → ((classify_process_result r e codes).outcome ≡ succeeded) ↔ (
        (r.termination ≡ exited)
        × (r.termination_cause ≡ not_terminated)
        × (is_expected r.exit_code (or_else codes (0 ∷ [])) ≡ true)
        × (all_required_passed (or_else e no_evidence) ≡ true))
unfolding classify_process_result validate_result all_required_passed
success_exact r e codes v = (λ h. ground arith, λ h. ground arith)

-- A reason code belongs to the outcome that it stands beside.
abbrev pub BelongsTo : ExecutionOutcome → Option ReasonCode → Type 0
BelongsTo o none = Unit
BelongsTo o (some code) = matches code o ≡ true

abbrev pub IsRecordable : Classification → Type 0
IsRecordable c =
    Explains (some c.outcome) c.reason_code
    × BelongsTo c.outcome c.reason_code
    × (c.outcome ≢ skipped)
    × (c.outcome ≢ blocked)
    × (c.outcome ≢ condition_error)
    × (c.outcome ≢ infrastructure_failed)

terminated-IsRecordable :
    (c : TerminationCause) (x : String)
    → IsRecordable (record {
      outcome = (terminated_outcome c).0;
      reason_code = (terminated_outcome c).1;
      explanation = x;
    })
unfolding matches
terminated-IsRecordable run_timeout x = ground arith
terminated-IsRecordable _ x = ground arith

classify_exit-IsRecordable :
    (r : ProcessResult) (e : ExpectationEvidence) (codes : List ℕ)
    → IsRecordable (classify_exit r e codes)
unfolding classify_exit
classify_exit-IsRecordable r e codes =
    if_elim IsRecordable (not (is_expected r.exit_code codes)) (ground arith) (
      if_elim IsRecordable e.evaluation_errored (ground arith)
        (if_elim IsRecordable (ltb 0 e.required_failed) (ground arith) (ground arith)))

-- Every classification can be recorded: its reason code is there where its outcome needs one, and
-- wherever there is one, also beside `failed`, it belongs to the outcome. No process is ever classified as skipped, blocked, a condition error or
-- an infrastructure failure, and without evidence none is classified as an outcome failure.
pub classification-IsRecordable :
    (r : ProcessResult) (e : Option ExpectationEvidence) (codes : Option (List ℕ))
    → IsRecordable (classify_process_result r e codes)
      × (e ≡ none → (classify_process_result r e codes).outcome ≢ outcome_failed)
unfolding classify_process_result matches
classification-IsRecordable r e codes = (
  if_elim IsRecordable (is_not_started r.termination) (ground arith) (
      if_elim IsRecordable (is_abandoned r.termination) (ground arith) (
        if_elim IsRecordable (was_terminated r.termination_cause)
          (terminated-IsRecordable r.termination_cause (
            termination_explanation r.termination_cause r.signal_number (duration_text r.duration)))
          (if_elim IsRecordable (is_signalled r.termination) (ground arith)
            (classify_exit-IsRecordable r (or_else e no_evidence) (or_else codes (0 ∷ [])))))),
  λ h. ground arith,
)

-- Another attempt is made exactly when attempts are left under the policy and the outcome is one
-- that is always retried, or one that the policy has opted in to retrying; and that attempt is
-- numbered next, within the policy's maximum.
pub retry_exact :
    (o : ExecutionOutcome) (p : RetryPolicy) (n : ℕ)
    → 1 ≤ n
    → let d = decide_retry o p n in
      ((d.should_retry ≡ true) ↔ (
        (n < p.max_attempts)
        × ((retry_eligibility o ≡ always)
            ⊎ ((o ≡ outcome_failed) × (p.retry_outcome_failures ≡ true))
            ⊎ ((o ≡ timed_out) × (p.retry_timeouts ≡ true)))))
      × (d.should_retry ≡ true → d.next_attempt_number ≡ some (n + 1))
      × (d.should_retry ≡ false → d.next_attempt_number ≡ none)
unfolding decide_retry
retry_exact o p n h = ((λ d. ground arith, λ d. ground arith), λ d. ground arith, λ d. ground arith)
