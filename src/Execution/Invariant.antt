-- ===== src/Execution/Invariant.antt =====
-- What holds of an execution whichever methods of src/taskcontrol/domain/execution/execution.py
-- have made it.
use task_control.Errors.{ok}
use task_control.Execution.Attempt.{ExecutionAttempt}
use task_control.Execution.Reasons.{ReasonCode, matches}
use task_control.Execution.Record.{
  Execution, Requested, requested, max_explanation_length, is_finished, validate_execution,
  transition_to, begin_attempt, record_attempt_result, request_cancellation, finish,
}
use task_control.Execution.Vocabulary.{ExecutionState, ExecutionOutcome, requires_reason_code}
use task_control.Prelude.{
  ℕ, suc, ◌+◌, ◌≤◌, String, ◌≡◌, refl, Bool, true, false, Option, none, some, List, [], ◌∷◌, ◌++◌,
  arith, is_some, len, length, get_last?, drop_last,
}
use task_control.Values.{Timestamp}

-- An outcome which needs a reason has one that belongs to it. Any other may have none, or any code.
abbrev pub Explains : Option ExecutionOutcome → Option ReasonCode → Type 0
Explains none reason = Unit
Explains (some o) none = requires_reason_code o ≡ false
Explains (some o) (some code) = requires_reason_code o ≡ true → matches code o ≡ true

-- Attempts are numbered consecutively, from `n` on.
abbrev pub IsNumbered : ℕ → List ExecutionAttempt → Type 0
IsNumbered n [] = Unit
IsNumbered n (a ∷ rest) = (a.attempt_number ≡ n) × IsNumbered (suc n) rest

abbrev is_empty : List ExecutionAttempt → Bool
is_empty [] = true
is_empty (_ ∷ _) = false

pub record IsValid (e : Execution) : Type 0 where
  pub outcome_when_finished : is_some e.outcome ≡ is_finished e
  pub explained : Explains e.outcome e.reason_code
  pub explanation_fits : len e.explanation ≤ max_explanation_length
  pub time_when_finished : is_some e.finished_at ≡ is_finished e
  pub numbered : IsNumbered 1 e.attempts
  pub started_when_attempted : is_empty e.attempts ≡ false → is_some e.started_at ≡ true

-- `__post_init__` checks the first three.
pub record IsConsistent (e : Execution) : Type 0 where
  pub outcome_when_finished : is_some e.outcome ≡ is_finished e
  pub explained : Explains e.outcome e.reason_code
  pub explanation_fits : len e.explanation ≤ max_explanation_length

pub validate_sound :
    (e : Execution) {f : Execution} → validate_execution e ≡ ok f → (f ≡ e) × IsConsistent e
unfolding validate_execution
validate_sound e h = ground arith

pub validate_complete : (e : Execution) → IsConsistent e → validate_execution e ≡ ok e
unfolding validate_execution
validate_complete e h = ground arith

IsNumbered-append :
    (n : ℕ) (xs : List ExecutionAttempt) (a : ExecutionAttempt)
    → IsNumbered n xs
    → a.attempt_number ≡ n + length xs
    → IsNumbered n (xs ++ a ∷ [])
IsNumbered-append n [] a h e = (omega arith, tt)
IsNumbered-append n (x ∷ xs) a h e = (h.0, IsNumbered-append (suc n) xs a h.1 (omega arith))

-- The last attempt is replaced by one of the same number.
IsNumbered-replace_last :
    (n : ℕ) (xs : List ExecutionAttempt) (a b : ExecutionAttempt)
    → IsNumbered n xs
    → get_last? xs ≡ some a
    → b.attempt_number ≡ a.attempt_number
    → IsNumbered n (drop_last xs ++ b ∷ [])
IsNumbered-replace_last n [] a b h l e = cc
IsNumbered-replace_last n (x ∷ []) a b h l e = ground arith
IsNumbered-replace_last n (x ∷ y ∷ xs) a b h l e =
    (h.0, IsNumbered-replace_last (suc n) (y ∷ xs) a b h.1 l e)

is_empty-append :
    (xs : List ExecutionAttempt) (a : ExecutionAttempt) → is_empty (xs ++ a ∷ []) ≡ false
is_empty-append [] a = refl
is_empty-append (x ∷ xs) a = refl

is_empty_of_last :
    (xs : List ExecutionAttempt) (a : ExecutionAttempt)
    → get_last? xs ≡ some a
    → is_empty xs ≡ false
is_empty_of_last [] a h = cc
is_empty_of_last (x ∷ xs) a h = refl

pub requested-IsValid : (r : Requested) {e : Execution} → requested r ≡ ok e → IsValid e
unfolding requested
requested-IsValid r h = ground arith

pub transition_to-IsValid :
    (e : Execution) (s : ExecutionState) {f : Execution}
    → IsValid e
    → transition_to e s ≡ ok f
    → IsValid f
unfolding transition_to
transition_to-IsValid e s v h = ground arith

pub request_cancellation-IsValid :
    (e : Execution) {f : Execution} → IsValid e → request_cancellation e ≡ ok f → IsValid f
unfolding request_cancellation
request_cancellation-IsValid e v h = ground arith

pub finish-IsValid :
    (e : Execution) (o : ExecutionOutcome) (t : Timestamp) (r : Option ReasonCode) (x : String)
    {f : Execution}
    → IsValid e
    → finish e o t r x ≡ ok f
    → IsValid f
unfolding finish
finish-IsValid e o t r x v h = ground arith

pub begin_attempt-IsValid :
    (e : Execution) (a : ExecutionAttempt) (t : Timestamp) {f : Execution}
    → IsValid e
    → begin_attempt e a t ≡ ok f
    → IsValid f
unfolding begin_attempt
begin_attempt-IsValid e a t v h = ground (arith, IsNumbered-append 1 e.attempts a)

pub record_attempt_result-IsValid :
    (e : Execution) (a b : ExecutionAttempt) {f : Execution}
    → IsValid e
    → get_last? e.attempts ≡ some a
    → b.attempt_number ≡ a.attempt_number
    → record_attempt_result e b ≡ ok f
    → IsValid f
unfolding record_attempt_result
record_attempt_result-IsValid e a b v l n h =
    ground (arith, IsNumbered-replace_last 1 e.attempts a b, is_empty_of_last e.attempts a)
