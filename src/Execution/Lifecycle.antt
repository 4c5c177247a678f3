-- ===== src/Execution/Lifecycle.antt =====
-- An execution's whole life as a step relation over the methods of
-- src/taskcontrol/domain/execution/execution.py.
use task_control.Errors.{ok}
use task_control.Execution.Attempt
use task_control.Execution.Attempt.{ExecutionAttempt}
use task_control.Execution.Invariant.{
  IsValid, requested-IsValid, transition_to-IsValid, request_cancellation-IsValid, finish-IsValid,
  begin_attempt-IsValid, record_attempt_result-IsValid,
}
use task_control.Execution.Reasons.{ReasonCode}
use task_control.Execution.Record.{
  Execution, Requested, requested, is_finished, attempt_count, transition_to, begin_attempt,
  record_attempt_result, request_cancellation, finish,
}
use task_control.Execution.Results.{ProcessResult}
use task_control.Execution.Vocabulary.{ExecutionState, ExecutionOutcome}
use task_control.Prelude.{String, ◌≡◌, true, Option, some, arith, length-replace_last, get_last?}
use task_control.Values.{Timestamp}

-- One successful call of a method. The attempt that is recorded is the latest one, finished.
pub data Step (e f : Execution) : Type 0 where
  moves : (s : ExecutionState) → transition_to e s ≡ ok f → Step e f
  begins : (a : ExecutionAttempt) (t : Timestamp) → begin_attempt e a t ≡ ok f → Step e f
  records :
      (a b : ExecutionAttempt) (r : ProcessResult) (t : Timestamp) (stdout stderr : String)
      → get_last? e.attempts ≡ some a
      → Attempt.finish a r t stdout stderr ≡ ok b
      → record_attempt_result e b ≡ ok f
      → Step e f
  cancels : request_cancellation e ≡ ok f → Step e f
  finishes :
      (o : ExecutionOutcome) (t : Timestamp) (r : Option ReasonCode) (x : String)
      → finish e o t r x ≡ ok f
      → Step e f

pub data Reach (e : Execution) : Execution → Type 0 where
  here : Reach e e
  next : {f g : Execution} → Reach e f → Step f g → Reach e g

attempt_number-finish :
    (a : ExecutionAttempt) (r : ProcessResult) (t : Timestamp) (stdout stderr : String)
    {b : ExecutionAttempt}
    → Attempt.finish a r t stdout stderr ≡ ok b
    → b.attempt_number ≡ a.attempt_number
unfolding Attempt.finish
attempt_number-finish a r t stdout stderr h = ground arith

pub Step-IsValid : {e f : Execution} → Step e f → IsValid e → IsValid f
Step-IsValid {e} (moves s h) v = transition_to-IsValid e s v h
Step-IsValid {e} (begins a t h) v = begin_attempt-IsValid e a t v h
Step-IsValid {e} (records a b r t x y l d h) v =
    record_attempt_result-IsValid e a b v l (attempt_number-finish a r t x y d) h
Step-IsValid {e} (cancels h) v = request_cancellation-IsValid e v h
Step-IsValid {e} (finishes o t r x h) v = finish-IsValid e o t r x v h

Reach-IsValid : {e f : Execution} → Reach e f → IsValid e → IsValid f
Reach-IsValid here v = v
Reach-IsValid (next r s) v = Step-IsValid s (Reach-IsValid r v)

-- Whatever methods are called on a requested execution, in any order, where what is recorded is its
-- latest attempt, finished: the result has an outcome and a finish time exactly when it is finished,
-- it has a reason code of its outcome where the outcome needs one (`skipped`, `blocked`,
-- `condition_error`, `infrastructure_failed`, `timed_out`, `cancelled`; the code of any other outcome is
-- not restricted), its explanation has at most 4000 characters, its attempts are numbered 1, 2, 3, ... and it has a start time once
-- there is an attempt.
pub lifecycle-IsValid :
    (r : Requested) {e f : Execution} → requested r ≡ ok e → Reach e f → IsValid f
lifecycle-IsValid r h reach = Reach-IsValid reach (requested-IsValid r h)

-- what a finished execution has decided
pub record SameVerdict (e f : Execution) : Type 0 where
  pub state : f.state ≡ e.state
  pub outcome : f.outcome ≡ e.outcome
  pub reason_code : f.reason_code ≡ e.reason_code
  pub explanation : f.explanation ≡ e.explanation
  pub finished_at : f.finished_at ≡ e.finished_at
  pub started_at : f.started_at ≡ e.started_at
  pub attempts_kept : attempt_count f ≡ attempt_count e

Step-SameVerdict : {e f : Execution} → is_finished e ≡ true → Step e f → SameVerdict e f
unfolding transition_to begin_attempt request_cancellation finish record_attempt_result
Step-SameVerdict d (moves s h) = ground arith
Step-SameVerdict d (begins a t h) = ground arith
Step-SameVerdict {e} d (records a b r t x y l _ h) =
    ground (arith, length-replace_last e.attempts a b l)
Step-SameVerdict d (cancels h) = ground arith
Step-SameVerdict d (finishes o t r x h) = ground arith

-- Once an execution is finished, no sequence of successful calls, of which `record_attempt_result`
-- records its latest attempt as `ExecutionAttempt.finish` leaves it, changes its state, outcome,
-- reason code, explanation, start or finish time, or the number of its attempts.
pub finished_immutable : {e f : Execution} → is_finished e ≡ true → Reach e f → SameVerdict e f
finished_immutable d here = ground arith
finished_immutable d (next r s) =
    let same = finished_immutable d r in
    let last = Step-SameVerdict (ground arith) s in ground arith
