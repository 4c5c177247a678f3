-- ===== src/Policies/Classification.antt =====
-- From a process result to an outcome, and from an outcome to a retry
-- (src/taskcontrol/domain/policies/classification.py).
use task_control.Execution.Reasons.{
  ReasonCode, timed_out_run_timeout_exceeded, cancelled_requested_by_user, cancelled_superseded,
  failed_terminated_externally,
}
use task_control.Execution.Results.{
  ProcessResult, TerminationCause, not_terminated, run_timeout, cancellation_requested, superseded,
  external, is_not_started, is_abandoned, is_signalled, was_terminated,
}
use task_control.Execution.Retries.{RetryPolicy, retries_enabled}
use task_control.Execution.Vocabulary.{
  ExecutionOutcome, succeeded, failed, launch_failed, outcome_failed, timed_out, cancelled, unknown,
  outcome_value, RetryEligibility, never, by_policy, retry_eligibility,
}
use task_control.Prelude.{
  ℕ, ◌+◌, String, Bool, true, false, not, ◌&&◌, Option, none, some, List, [], ◌∷◌, ltb, leb, ◌==◌,
  any, if◌then◌else◌, or_else, str_eq, concat, show,
}
use task_control.Values.{duration_text}

pub record ExpectationEvidence : Type 0 where
  pub required_total : ℕ
  pub required_failed : ℕ
  pub evaluation_errored : Bool

abbrev pub no_evidence : ExpectationEvidence
no_evidence = record { required_total = 0; required_failed = 0; evaluation_errored = false }

-- the property `all_required_passed`
unfoldable pub all_required_passed : ExpectationEvidence → Bool
all_required_passed e = not e.evaluation_errored && e.required_failed == 0

pub record Classification : Type 0 where
  pub outcome : ExecutionOutcome
  pub reason_code : Option ReasonCode
  pub explanation : String

-- `text or default`
abbrev text_or : Option String → String → String
text_or none d = d
text_or (some s) d = if str_eq s "" then d else s

-- `str(None)` or `str(number)`
abbrev pub option_text : Option ℕ → String
option_text none = "None"
option_text (some n) = show n

-- ` (signal 9)`; signal 0 is false in a test
abbrev signal_detail : Option ℕ → String
signal_detail none = ""
signal_detail (some n) = if n == 0 then "" else concat (" (signal " ∷ show n ∷ ")" ∷ [])

-- `_termination_explanation`
pub termination_explanation : TerminationCause → Option ℕ → String → String
termination_explanation run_timeout signal d =
    concat ("The process exceeded its timeout after " ∷ d ∷ signal_detail signal ∷ "." ∷ [])
termination_explanation cancellation_requested signal d =
    concat ("The process was cancelled after " ∷ d ∷ signal_detail signal ∷ "." ∷ [])
termination_explanation superseded signal d =
    concat ("The process was superseded by a newer run after " ∷ d ∷ "." ∷ [])
termination_explanation external signal d = concat (
    "The process was terminated by something outside TaskControl after "
    ∷ d
    ∷ signal_detail signal
    ∷ "."
    ∷ [])
termination_explanation not_terminated signal d = "The process was not terminated."

-- `_TERMINATION_CLASSIFICATION`; the cause without an entry never gets here
abbrev pub terminated_outcome : TerminationCause → ExecutionOutcome × Option ReasonCode
terminated_outcome run_timeout = (timed_out, some timed_out_run_timeout_exceeded)
terminated_outcome cancellation_requested = (cancelled, some cancelled_requested_by_user)
terminated_outcome superseded = (cancelled, some cancelled_superseded)
terminated_outcome external = (failed, some failed_terminated_externally)
terminated_outcome not_terminated = (failed, none)

-- `code in codes`, where the code may be `None`
abbrev pub is_expected : Option ℕ → List ℕ → Bool
is_expected none codes = false
is_expected (some code) codes = any (λ c. c == code) codes

unfoldable pub classify_exit : ProcessResult → ExpectationEvidence → List ℕ → Classification
classify_exit r evidence codes =
    if not (is_expected r.exit_code codes)
    then record {
      outcome = failed;
      reason_code = none;
      explanation = concat ("The process exited with status " ∷ option_text r.exit_code ∷ "." ∷ []);
    }
    else if evidence.evaluation_errored
    then record {
      outcome = outcome_failed;
      reason_code = none;
      explanation =
          "The process succeeded, but an expected-outcome evaluator failed, so success could not be confirmed.";
    }
    else if ltb 0 evidence.required_failed
    then record {
      outcome = outcome_failed;
      reason_code = none;
      explanation = concat (
          "The process exited with status "
          ∷ option_text r.exit_code
          ∷ ", but "
          ∷ show evidence.required_failed
          ∷ " of "
          ∷ show evidence.required_total
          ∷ " required expected outcomes did not pass."
          ∷ []);
    }
    else record {
      outcome = succeeded;
      reason_code = none;
      explanation = concat (
          "The process exited with status "
          ∷ option_text r.exit_code
          ∷ (if evidence.required_total == 0
              then "."
              else " and every required expected outcome passed.")
          ∷ []);
    }

-- `classify_process_result`; a missing set of exit codes is `{0}`
unfoldable pub classify_process_result :
    ProcessResult → Option ExpectationEvidence → Option (List ℕ) → Classification
unfolding classify_exit
classify_process_result r expectations expected_exit_codes =
    if is_not_started r.termination
    then record {
      outcome = launch_failed;
      reason_code = none;
      explanation = text_or r.launch_error "The process could not be started.";
    }
    else if is_abandoned r.termination
    then record {
      outcome = unknown;
      reason_code = none;
      explanation =
          "The runtime lost track of the process, so its result cannot be proven. This execution requires reconciliation.";
    }
    else if was_terminated r.termination_cause
    then (let (o, code) = terminated_outcome r.termination_cause in
        record {
          outcome = o;
          reason_code = code;
          explanation =
              termination_explanation r.termination_cause r.signal_number
                (duration_text r.duration);
        })
    else if is_signalled r.termination
    then record {
      outcome = failed;
      reason_code = some failed_terminated_externally;
      explanation = concat (
          "The process was terminated by signal "
          ∷ option_text r.signal_number
          ∷ ", which TaskControl did not send."
          ∷ []);
    }
    else classify_exit r (or_else expectations no_evidence) (or_else expected_exit_codes (0 ∷ []))

pub record RetryDecision : Type 0 where
  pub should_retry : Bool
  pub reason : String
  pub next_attempt_number : Option ℕ

abbrev refuse : String → RetryDecision
refuse why = record { should_retry = false; reason = why; next_attempt_number = none }

abbrev is_outcome_failed : ExecutionOutcome → Bool
is_outcome_failed outcome_failed = true
is_outcome_failed _ = false

abbrev is_never : RetryEligibility → Bool
is_never never = true
is_never _ = false

abbrev is_by_policy : RetryEligibility → Bool
is_by_policy by_policy = true
is_by_policy _ = false

abbrev opted_in : ExecutionOutcome → RetryPolicy → Bool
opted_in o p = if is_outcome_failed o then p.retry_outcome_failures else p.retry_timeouts

unfoldable pub decide_retry : ExecutionOutcome → RetryPolicy → ℕ → RetryDecision
unfolding retries_enabled
decide_retry o p attempts_made =
    if is_never (retry_eligibility o)
    then refuse (concat (outcome_value o ∷ " is never retried." ∷ []))
    else if not (retries_enabled p)
    then refuse "The task's retry policy allows a single attempt."
    else if leb p.max_attempts attempts_made
    then refuse (
        concat (
          "Retries exhausted after "
          ∷ show attempts_made
          ∷ " of "
          ∷ show p.max_attempts
          ∷ " attempts."
          ∷ []))
    else if is_by_policy (retry_eligibility o) && not (opted_in o p)
    then refuse (
        concat (
          outcome_value o
          ∷ " is retried only when the task opts in, because the work may have partially applied its effects."
          ∷ []))
    else record {
      should_retry = true;
      reason = concat (
          outcome_value o
          ∷ " is retryable; attempt "
          ∷ show (attempts_made + 1)
          ∷ " of "
          ∷ show p.max_attempts
          ∷ "."
          ∷ []);
      next_attempt_number = some (attempts_made + 1);
    }
