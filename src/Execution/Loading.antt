-- ===== src/Execution/Loading.antt =====
-- That the attempts which the methods of src/taskcontrol/domain/execution/execution.py make can be
-- stored and loaded again.
use task_control.Errors.{ok}
use task_control.Execution.Attempt
use task_control.Execution.Attempt.{ExecutionAttempt, new_attempt, validate_attempt}
use task_control.Execution.Invariant.{IsConsistent}
use task_control.Execution.Reasons.{ReasonCode}
use task_control.Execution.Record.{
  Execution, transition_to, begin_attempt, record_attempt_result, finish,
}
use task_control.Execution.Results.{ProcessResult, validate_result}
use task_control.Execution.Vocabulary.{ExecutionState, ExecutionOutcome}
use task_control.Prelude.{
  ℕ, ◌≤◌, String, ◌≡◌, Option, none, some, List, [], ◌∷◌, arith, is_some, All, All-append,
  drop_last,
}
use task_control.Values.{Timestamp}

abbrev pub IsResult : Option ProcessResult → Type 0
IsResult none = Unit
IsResult (some r) = validate_result r ≡ ok r

-- What the constructors have checked of an attempt and of its result.
pub record IsLoadable (a : ExecutionAttempt) : Type 0 where
  pub from_one : 1 ≤ a.attempt_number
  pub both_or_neither : is_some a.finished_at ≡ is_some a.result
  pub result_valid : IsResult a.result

-- An execution of this identity, made by the constructors.
pub record IsOwn (id : String) (e : Execution) : Type 0 where
  pub same_id : e.execution_id ≡ id
  pub loadable : All IsLoadable e.attempts
  pub consistent : IsConsistent e

pub new_attempt-IsLoadable :
    (attempt_id execution_id : String) (n : ℕ) (t : Timestamp) (x : String) {a : ExecutionAttempt}
    → new_attempt attempt_id execution_id n t x ≡ ok a
    → IsLoadable a
unfolding new_attempt
new_attempt-IsLoadable attempt_id execution_id n t x {a} h = ground arith

pub finish-IsLoadable :
    (a : ExecutionAttempt) (r : ProcessResult) (t : Timestamp) (stdout stderr : String)
    {b : ExecutionAttempt}
    → IsLoadable a
    → validate_result r ≡ ok r
    → Attempt.finish a r t stdout stderr ≡ ok b
    → IsLoadable b
unfolding Attempt.finish
finish-IsLoadable a r t stdout stderr {b} v g h = ground arith

All-drop_last :
    (P : ExecutionAttempt → Type 0) (xs : List ExecutionAttempt) → All P xs → All P (drop_last xs)
All-drop_last P [] h = tt
All-drop_last P (x ∷ []) h = tt
All-drop_last P (x ∷ y ∷ xs) h = (h.0, All-drop_last P (y ∷ xs) h.1)

pub transition_to-IsOwn :
    (id : String) (e : Execution) (s : ExecutionState) {f : Execution}
    → IsOwn id e
    → transition_to e s ≡ ok f
    → IsOwn id f
unfolding transition_to
transition_to-IsOwn id e s {f} v h = ground arith

pub begin_attempt-IsOwn :
    (id : String) (e : Execution) (a : ExecutionAttempt) (t : Timestamp) {f : Execution}
    → IsOwn id e
    → IsLoadable a
    → begin_attempt e a t ≡ ok f
    → IsOwn id f
unfolding begin_attempt
begin_attempt-IsOwn id e a t {f} v l h =
    let ls = All-append IsLoadable e.attempts (a ∷ []) v.loadable (l, tt) in ground arith

pub record_attempt_result-IsOwn :
    (id : String) (e : Execution) (a : ExecutionAttempt) {f : Execution}
    → IsOwn id e
    → IsLoadable a
    → record_attempt_result e a ≡ ok f
    → IsOwn id f
unfolding record_attempt_result
record_attempt_result-IsOwn id e a {f} v l h =
    let ls =
      All-append IsLoadable (drop_last e.attempts) (a ∷ [])
        (All-drop_last IsLoadable e.attempts v.loadable) (l, tt) in
    ground arith

pub finish-IsOwn :
    (id : String) (e : Execution) (o : ExecutionOutcome) (t : Timestamp) (r : Option ReasonCode)
    (x : String) {f : Execution}
    → IsOwn id e
    → finish e o t r x ≡ ok f
    → IsOwn id f
unfolding finish
finish-IsOwn id e o t r x {f} v h = ground arith
