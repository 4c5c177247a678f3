-- ===== src/Tests/Executions.antt =====
-- An execution of one task, its attempts, their classification and retries.
use task_control.Errors.{ok}
use task_control.Execution.Attempt
use task_control.Execution.Attempt.{ExecutionAttempt, new_attempt, validate_attempt}
use task_control.Execution.Invariant.{IsValid, Explains}
use task_control.Execution.Lifecycle.{
  moves, begins, records, finishes, Reach, here, next, SameVerdict, lifecycle-IsValid,
  finished_immutable,
}
use task_control.Execution.Record.{
  Execution, Requested, manual, requested, is_finished, transition_to, begin_attempt,
  record_attempt_result, finish, max_explanation_length,
}
use task_control.Execution.Results.{ProcessResult, exited, not_terminated, validate_result}
use task_control.Execution.Transitions.{
  Chain, done, move, finish_exact, begin_attempt_skips_diagram,
}
use task_control.Execution.Vocabulary.{
  pending, evaluating, running, finished, succeeded, is_legal_transition,
}
use task_control.Execution.Loading.{IsLoadable}
use task_control.Persistence.Executions.{find, put, get, save, merge_attempts, has_duplicates}
use task_control.Persistence.Rows.{IsRow}
use task_control.Persistence.Saving.{IsSaved, save_then_get}
use task_control.Prelude.{
  All, ◌≤◌, String, ◌≡◌, refl, ◌≢◌, inl, false, none, some, [], ◌∷◌, arith, len,
}

abbrev pub request_of_today : Requested
request_of_today = record {
  execution_id = "x1";
  task_id = "t1";
  revision_id = "r1";
  trigger_source = manual;
  requested_at = 10;
  correlation_id = some "c1";
  idempotency_key = none;
  requested_by = none;
}

abbrev first_attempt : ExecutionAttempt
first_attempt = record {
  attempt_id = "a1";
  execution_id = "x1";
  attempt_number = 1;
  started_at = 20;
  executor_type = "shell";
  finished_at = none;
  result = none;
  stdout = "";
  stderr = "";
}

abbrev pub clean_exit : ProcessResult
clean_exit = record {
  termination = exited;
  duration = record { seconds = 3 };
  exit_code = some 0;
  signal_number = none;
  termination_cause = not_terminated;
  stdout_bytes = 2;
  stderr_bytes = 0;
  output_truncated = false;
  launch_error = none;
}

abbrev first_finished : ExecutionAttempt
first_finished = record first_attempt {
  finished_at = some 30;
  result = some clean_exit;
  stdout = "ok";
}

abbrev requested_one : Execution
requested_one = record {
  execution_id = "x1";
  task_id = "t1";
  revision_id = "r1";
  trigger_source = manual;
  requested_at = 10;
  state = pending;
  outcome = none;
  reason_code = none;
  explanation = "";
  attempts = [];
  started_at = none;
  finished_at = none;
  correlation_id = some "c1";
  idempotency_key = none;
  requested_by = none;
  configuration_digest = none;
}

abbrev evaluated : Execution
evaluated = record requested_one { state = evaluating }

abbrev begun : Execution
begun = record evaluated { state = running; attempts = first_attempt ∷ []; started_at = some 20 }

abbrev recorded : Execution
recorded = record begun { attempts = first_finished ∷ [] }

abbrev ended : Execution
ended = record recorded {
  state = finished;
  outcome = some succeeded;
  explanation = "done";
  finished_at = some 31;
}

requested_ok : requested request_of_today ≡ ok requested_one
unfolding requested len
requested_ok = refl

life : Reach requested_one ended
unfolding transition_to begin_attempt record_attempt_result finish Attempt.finish len
life =
    next
      (next (next (next here (moves evaluating refl)) (begins first_attempt 20 refl))
        (records first_attempt first_finished clean_exit 30 "ok" "" refl refl refl))
      (finishes succeeded 31 none "done" refl)

lifecycle-IsValid_example : IsValid ended
lifecycle-IsValid_example = lifecycle-IsValid request_of_today requested_ok life

-- An execution that was ended while its attempt ran, and the attempt's result after that.
abbrev ended_early : Execution
ended_early = record begun {
  state = finished;
  outcome = some succeeded;
  explanation = "done";
  finished_at = some 31;
}

abbrev recorded_late : Execution
recorded_late = record ended_early { attempts = first_finished ∷ [] }

late_result : Reach ended_early recorded_late
unfolding record_attempt_result Attempt.finish len
late_result = next here (records first_attempt first_finished clean_exit 30 "ok" "" refl refl refl)

finished_immutable_example : SameVerdict ended_early recorded_late
finished_immutable_example = finished_immutable refl late_result

chain : Chain 3 pending finished
chain = move {t = evaluating} refl (move {t = running} refl (move refl done))

evaluated-IsValid : IsValid evaluated
unfolding transition_to len
evaluated-IsValid =
    lifecycle-IsValid request_of_today requested_ok (next here (moves evaluating refl))

finish_exact_example :
    (is_finished evaluated ≡ false
      → Explains (some succeeded) none
      → len "done" ≤ max_explanation_length
      → finish evaluated succeeded 40 none "done"
        ≡ ok (record evaluated {
          state = finished;
          outcome = some succeeded;
          reason_code = none;
          explanation = "done";
          finished_at = some 40;
        }))
    × ((f : Execution)
        → finish evaluated succeeded 40 none "done" ≡ ok f
        → (is_finished evaluated ≡ false)
          × Explains (some succeeded) none
          × (len "done" ≤ max_explanation_length))
finish_exact_example = finish_exact evaluated succeeded 40 none "done" evaluated-IsValid

requested_one-IsValid : IsValid requested_one
requested_one-IsValid = lifecycle-IsValid request_of_today requested_ok here

begin_attempt_skips_diagram_example :
    (is_legal_transition pending running ≡ false)
    × ((f : Execution) × (begin_attempt requested_one first_attempt 20 ≡ ok f)
        × (f.state ≡ running))
begin_attempt_skips_diagram_example =
    begin_attempt_skips_diagram requested_one first_attempt 20 requested_one-IsValid (inl refl) refl

pub clean_exit_ok : validate_result clean_exit ≡ ok clean_exit
unfolding validate_result
clean_exit_ok = refl

begun-IsRow : IsRow "x1" (begun ∷ []) begun
unfolding find len has_duplicates
begun-IsRow = record {
  found = refl;
  sound = record {
    loadable = (record { from_one = omega arith; both_or_neither = refl; result_valid = tt }, tt);
    distinct = refl;
    consistent = record {
      outcome_when_finished = refl;
      explained = tt;
      explanation_fits = omega arith;
    };
  };
}

recorded-IsLoadable : All IsLoadable recorded.attempts
recorded-IsLoadable =
    (record { from_one = omega arith; both_or_neither = refl; result_valid = clean_exit_ok }, tt)

saved_recorded : save recorded (begun ∷ []) ≡ ok (recorded ∷ [])
unfolding save find put merge_attempts has_duplicates
saved_recorded = refl

save_then_get_example :
    ((f : Execution) × (get "x1" (recorded ∷ []) ≡ ok (some f)) × IsSaved begun recorded f)
    × ((j : String) → j ≢ "x1" → find j (recorded ∷ []) ≡ find j (begun ∷ []))
unfolding len
save_then_get_example =
    save_then_get "x1" (begun ∷ []) begun recorded begun-IsRow refl recorded-IsLoadable (tt, tt)
      (record { outcome_when_finished = refl; explained = tt; explanation_fits = omega arith })
      saved_recorded
