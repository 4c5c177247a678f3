-- ===== src/Tests/Policies.antt =====
-- A clean exit, its classification, and a patient retry policy.
use task_control.Errors.{ok}
use task_control.Execution.Delays.{delay_before_bounded}
use task_control.Execution.Reasons.{make_reason_code}
use task_control.Execution.Results.{exited, not_terminated}
use task_control.Execution.Retries.{RetryPolicy, exponential, delay_before}
use task_control.Execution.Vocabulary.{
  succeeded, failed, outcome_failed, timed_out, retry_eligibility, always,
}
use task_control.Policies.Classification.{
  classify_process_result, is_expected, all_required_passed, no_evidence, ExpectationEvidence,
  decide_retry,
}
use task_control.Policies.Evidence.{
  success_exact, classification-IsRecordable, retry_exact, IsRecordable,
}
use task_control.Prelude.{
  ℕ, ◌≤◌, ◌<◌, ◌≡◌, refl, ◌≢◌, ◌↔◌, ◌⊎◌, true, false, Option, none, some, [], ◌∷◌, arith,
}
use task_control.Values.{Duration}
use task_control.Tests.Executions.{clean_exit, clean_exit_ok}

abbrev pub patient : RetryPolicy
patient = record {
  max_attempts = 3;
  backoff = exponential;
  base_delay = record { seconds = 30 };
  max_delay = record { seconds = 3600 };
  retry_outcome_failures = false;
  retry_timeouts = true;
}

delay_before_bounded_example :
    (d : Duration) × (e : Duration) × (delay_before patient 2 ≡ ok d)
    × (delay_before patient 3 ≡ ok e)
    × (d.seconds ≤ e.seconds)
    × (e.seconds ≤ 3600)
    × (◌≡◌ {A = ℕ} 2 1 → d.seconds ≡ 0)
delay_before_bounded_example =
    delay_before_bounded patient 2 3 (omega arith) (omega arith) (omega arith)

code_ok : make_reason_code "failed.exit_code" ≡ ok (record { value = "failed.exit_code" })
unfolding make_reason_code
code_ok = refl

success_exact_example : ((classify_process_result clean_exit none none).outcome ≡ succeeded) ↔ (
    (exited ≡ exited)
    × (not_terminated ≡ not_terminated)
    × (is_expected (some 0) (0 ∷ []) ≡ true)
    × (all_required_passed no_evidence ≡ true))
success_exact_example = success_exact clean_exit none none clean_exit_ok

classification-IsRecordable_example :
    IsRecordable (classify_process_result clean_exit none none)
    × (◌≡◌ {A = Option ExpectationEvidence} none none
        → (classify_process_result clean_exit none none).outcome ≢ outcome_failed)
classification-IsRecordable_example = classification-IsRecordable clean_exit none none

retry_exact_example :
    let d = decide_retry failed patient 1 in
    ((d.should_retry ≡ true) ↔ (
      (1 < 3)
      × ((retry_eligibility failed ≡ always)
          ⊎ ((failed ≡ outcome_failed) × (false ≡ true))
          ⊎ ((failed ≡ timed_out) × (true ≡ true)))))
    × (d.should_retry ≡ true → d.next_attempt_number ≡ some 2)
    × (d.should_retry ≡ false → d.next_attempt_number ≡ none)
retry_exact_example = retry_exact failed patient 1 (omega arith)
