-- ===== src/Execution/Transitions.antt =====
-- The diagram of legal transitions (`_LEGAL_TRANSITIONS` of
-- src/taskcontrol/domain/execution/vocabulary.py) and how the methods of `Execution` keep to it.
use task_control.Errors.{ok}
use task_control.Execution.Attempt.{ExecutionAttempt}
use task_control.Execution.Invariant.{IsValid, Explains}
use task_control.Execution.Reasons.{ReasonCode}
use task_control.Execution.Record.{
  Execution, is_finished, attempt_count, max_explanation_length, transition_to, begin_attempt,
  request_cancellation, finish,
}
use task_control.Execution.Vocabulary.{
  ExecutionState, pending, evaluating, running, cancelling, finished, ExecutionOutcome,
  is_legal_transition,
}
use task_control.Prelude.{
  ℕ, zero, suc, ◌+◌, ◌≤◌, String, ◌≡◌, refl, ◌⊎◌, true, false, Option, some, [], ◌∷◌, ◌++◌, or_else,
  arith, len,
}
use task_control.Values.{Timestamp}

-- `n` legal transitions in a row
pub data Chain : ℕ → ExecutionState → ExecutionState → Type 0 where
  done : {s : ExecutionState} → Chain zero s s
  move :
      {n : ℕ} {s t u : ExecutionState}
      → is_legal_transition s t ≡ true
      → Chain n t u
      → Chain (suc n) s u

abbrev rank : ExecutionState → ℕ
rank pending = 0
rank evaluating = 1
rank running = 2
rank cancelling = 3
rank finished = 4

rank-legal :
    (s t : ExecutionState) → is_legal_transition s t ≡ true → (rank s + 1 ≤ rank t) × (rank t ≤ 4)
rank-legal s t h = ground arith

rank-le : (s : ExecutionState) → rank s ≤ 4
rank-le s = ground arith

Chain-rank : {n : ℕ} {s t : ExecutionState} → Chain n s t → n + rank s ≤ rank t
Chain-rank done = omega arith
Chain-rank (move {s = s} {t = t} h c) = omega (arith, rank-legal s t h, Chain-rank c)

-- Every chain of legal transitions has at most four steps, and none leaves `finished`; and one
-- step leads from every other state to `finished`. So an execution cannot be moved for ever, and
-- can always be ended.
pub transitions_end :
    {n : ℕ} {s t : ExecutionState}
    → Chain n s t
    → (n ≤ 4)
      × ((s ≡ finished → n ≡ 0) × ((s ≡ finished) ⊎ (is_legal_transition s finished ≡ true)))
transitions_end {n} {s} {t} c = ground (arith, Chain-rank c, rank-le t)

-- `finish` succeeds on an execution exactly when it has not finished, the explanation is short enough
-- and, where the outcome needs a reason code, there is one that belongs to it; the code of an outcome
-- that needs none is not asked about. The result is finished, with what was given.
pub finish_exact :
    (e : Execution) (o : ExecutionOutcome) (t : Timestamp) (r : Option ReasonCode) (x : String)
    → IsValid e
    → ((is_finished e ≡ false)
        → Explains (some o) r
        → len x ≤ max_explanation_length
        → finish e o t r x
          ≡ ok (record e {
            state = finished;
            outcome = some o;
            reason_code = r;
            explanation = x;
            finished_at = some t;
          }))
      × ((f : Execution)
          → finish e o t r x ≡ ok f
          → (is_finished e ≡ false) × Explains (some o) r × (len x ≤ max_explanation_length))
unfolding finish
finish_exact e o t r x v = (λ d p l. ground arith, λ f h. ground arith)

-- `transition_to` and `request_cancellation` follow the diagram: where they succeed the move is a
-- legal one, it is not to `finished`, and only the state changes.
pub moves_legal :
    (e f : Execution) (s : ExecutionState)
    → (transition_to e s ≡ ok f
        → (is_legal_transition e.state s ≡ true)
          × (f ≡ record e { state = s })
          × (is_finished f ≡ false))
      × (request_cancellation e ≡ ok f
          → (e.state ≡ running) × (f ≡ record e { state = cancelling }))
unfolding transition_to request_cancellation
moves_legal e f s = (λ h. ground arith, λ h. ground arith)

-- `begin_attempt` does not ask the diagram. On a valid execution that is pending, or whose cancellation
-- was requested, the next attempt begins and the state is `running`, although no legal transition
-- leads from there to `running`.
pub begin_attempt_skips_diagram :
    (e : Execution) (a : ExecutionAttempt) (t : Timestamp)
    → IsValid e
    → (e.state ≡ pending) ⊎ (e.state ≡ cancelling)
    → a.attempt_number ≡ attempt_count e + 1
    → (is_legal_transition e.state running ≡ false)
      × ((f : Execution) × (begin_attempt e a t ≡ ok f) × (f.state ≡ running))
unfolding begin_attempt
begin_attempt_skips_diagram e a t v s n = (
  ground arith,
  (
    record e {
      state = running;
      attempts = e.attempts ++ a ∷ [];
      started_at = some (or_else e.started_at t);
    },
    ground arith,
    refl,
  ),
)
