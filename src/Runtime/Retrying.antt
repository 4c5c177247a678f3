-- ===== src/Runtime/Retrying.antt =====
-- The loop of attempts and its fuel
-- (src/taskcontrol/application/runtime/service.py, `_run_attempts`).
use task_control.Errors.{Result, ok, raise}
use task_control.Execution.Attempt
use task_control.Execution.Attempt.{ExecutionAttempt, new_attempt}
use task_control.Execution.Record.{Execution, attempt_count, begin_attempt, record_attempt_result}
use task_control.Policies.Classification.{Classification, RetryDecision, decide_retry}
use task_control.Policies.Evidence.{retry_exact}
use task_control.Prelude.{
  ℕ, zero, suc, ◌+◌, ◌≤◌, ◌<◌, String, ◌≡◌, refl, sym, ap, ◌∙◌, Bool, true, false, List, arith,
}
use task_control.Runtime.Attempts.{request_for, run_attempt, run_loop, explain}
use task_control.Runtime.World.{Environment, World, Action, TaskRevision, Executor, sequel}
use task_control.Runtime.Counting.{
  Counts, return-Counts, sequel-Counts, step-Counts, save_execution-Counts, finish_execution-Counts,
  count-begin, count-record,
}

-- what one round of the loop has done
abbrev IsRound : TaskRevision → ℕ → Execution × Classification × RetryDecision → Type 0
IsRound revision n found =
    (attempt_count found.0 ≡ n)
    × (found.2 ≡ decide_retry found.1.outcome revision.controls.retry (attempt_count found.0))

module _ {L : Type 0} (env : Environment L) (revision : TaskRevision) (executor : Executor)
    (environment : List (String × String)) where
  run_attempt-Counts :
      (n : ℕ) (e : Execution) (w : World L)
      → w.runs ≤ n
      → Counts
          (suc n)
          (IsRound revision (attempt_count e + 1))
          (run_attempt env e revision executor environment w)
  unfolding run_attempt
  run_attempt-Counts n e w l =
      step-Counts {L = L} (suc n)
        (new_attempt (env.generate w.identifiers) e.execution_id (attempt_count e + 1)
          (env.now w.ticks) revision.action.executor_type)
        _ _ (omega arith)
        (λ attempt _.
          step-Counts {L = L} (suc n) (begin_attempt e attempt (env.now w.ticks)) _ _ (omega arith)
            (λ begun b.
              sequel-Counts {L = L} n (suc n) (λ r. r ≡ begun) _ _ (omega arith)
                (save_execution-Counts env n begun _ l)
                (λ running w1 l1 p.
                  step-Counts {L = L} (suc n) (executor (request_for revision environment) w1.runs)
                    _ _ (omega arith)
                    (λ report _.
                      step-Counts {L = L} (suc n)
                        (Attempt.finish attempt report.result (env.now w1.ticks) report.stdout
                          report.stderr)
                        _ _ (omega arith)
                        (λ finished _.
                          step-Counts {L = L} (suc n) (record_attempt_result running finished) _ _
                            (omega arith)
                            (λ recorded c.
                              sequel-Counts {L = L} (suc n) (suc n) (λ r. r ≡ recorded) _ _
                                (omega arith)
                                (save_execution-Counts env (suc n) recorded _ (omega arith))
                                (λ saved w2 l2 q.
                                  return-Counts {L = L} (suc n)
                                    (IsRound revision (attempt_count e + 1)) _ w2 l2
                                    (
                                      ap attempt_count q
                                          ∙ count-record running finished c
                                          ∙ ap attempt_count p
                                          ∙ count-begin e attempt (env.now w.ticks) b,
                                      refl,
                                    ))))))))

  choice-Counts :
      (n : ℕ) (b : Bool) (again finally : Action L Execution) (w : World L)
      → (b ≡ true → Counts n (λ _. Unit) (again w))
      → (b ≡ false → Counts n (λ _. Unit) (finally w))
      → Counts n
          (λ _. Unit)
          ((elim b as (λ _. Action L Execution) [ true ↦ again | false ↦ finally ]) w)
  choice-Counts n true again finally w f g = f refl
  choice-Counts n false again finally w f g = g refl

  pub run_loop-Counts :
      (fuel n : ℕ) (e : Execution) (w : World L)
      → w.runs ≤ n
      → Counts (n + fuel) (λ _. Unit) (run_loop env fuel e revision executor environment w)
  unfolding run_loop
  run_loop-Counts zero n e w l = record { runs = omega arith; value = λ _ _. tt }
  run_loop-Counts (suc fuel) n e w l =
      sequel-Counts {L = L} (suc n) (n + suc fuel) (IsRound revision (attempt_count e + 1)) _
        (run_attempt env e revision executor environment w) (omega arith)
        (run_attempt-Counts n e w l)
        (λ found w1 l1 _.
          choice-Counts (n + suc fuel) found.2.should_retry _ _ w1
            (λ _.
              let c = run_loop-Counts fuel (suc n) found.0 w1 l1 in
              record { runs = omega (arith, c.runs); value = λ _ _. tt })
            (λ _.
              finish_execution-Counts env (n + suc fuel) found.0 found.1.outcome found.1.reason_code
                (explain found.1 found.2) w1 (omega arith)))

  sequel-same :
      {A : Type 0} (Q : A → Type 0) (n : ℕ) (f g : A → Action L Execution) (p : Result A × World L)
      → Counts n Q p
      → ((a : A) (w : World L) → Q a → f a w ≡ g a w)
      → sequel f p ≡ sequel g p
  sequel-same Q n f g (ok a, w) h eq = eq a w (h.value a refl)
  sequel-same Q n f g (raise x, w) h eq = refl

  choice-same :
      (b : Bool) (f g finally : Action L Execution) (w : World L)
      → (b ≡ true → f w ≡ g w)
      → (elim b as (λ _. Action L Execution) [ true ↦ f | false ↦ finally ]) w
        ≡ (elim b as (λ _. Action L Execution) [ true ↦ g | false ↦ finally ]) w
  choice-same true f g finally w h = h refl
  choice-same false f g finally w h = refl

  -- the attempts that the policy still allows, where a round is followed by another one
  left_for_another :
      (n : ℕ) (found : Execution × Classification × RetryDecision)
      → IsRound revision (n + 1) found
      → found.2.should_retry ≡ true
      → attempt_count found.0 < revision.controls.retry.max_attempts
  left_for_another n found h r =
      let exact =
        retry_exact found.1.outcome revision.controls.retry (attempt_count found.0)
          (omega (arith, h.0)) in
      (exact.0.0 (ap (λ d. d.should_retry) (sym h.1) ∙ r)).0

  next_round :
      (fuel more : ℕ) (e : Execution) (w : World L)
      → ((found : Execution × Classification × RetryDecision) (w1 : World L)
          → IsRound revision (attempt_count e + 1) found
          → attempt_count found.0 < revision.controls.retry.max_attempts
          → run_loop env more found.0 revision executor environment w1
            ≡ run_loop env fuel found.0 revision executor environment w1)
      → run_loop env (suc more) e revision executor environment w
        ≡ run_loop env (suc fuel) e revision executor environment w
  unfolding run_loop
  next_round fuel more e w again =
      sequel-same (IsRound revision (attempt_count e + 1)) (suc w.runs) _ _
        (run_attempt env e revision executor environment w)
        (run_attempt-Counts w.runs e w (omega arith))
        (λ found w1 h.
          choice-same found.2.should_retry _ _ _ w1
            (λ r. again found w1 h (left_for_another (attempt_count e) found h r)))

  run_loop-fuel :
      (fuel more : ℕ) (e : Execution) (w : World L)
      → attempt_count e + suc fuel ≡ revision.controls.retry.max_attempts
      → fuel ≤ more
      → run_loop env (suc more) e revision executor environment w
        ≡ run_loop env (suc fuel) e revision executor environment w
  run_loop-fuel zero more e w p l =
      next_round zero more e w (λ found w1 h c. absurd (omega (arith, h.0)))
  run_loop-fuel (suc fuel) zero e w p l = absurd (omega arith)
  run_loop-fuel (suc fuel) (suc more) e w p l =
      next_round (suc fuel) (suc more) e w
        (λ found w1 h c. run_loop-fuel fuel more found.0 w1 (omega (arith, h.0)) (omega arith))

  enough_fuel :
      (n more : ℕ) (e : Execution) (w : World L)
      → n ≡ revision.controls.retry.max_attempts
      → attempt_count e ≡ 0
      → 1 ≤ n
      → n ≤ more
      → run_loop env more e revision executor environment w
        ≡ run_loop env n e revision executor environment w
  enough_fuel zero more e w p c one l = absurd (omega arith)
  enough_fuel (suc n) zero e w p c one l = absurd (omega arith)
  enough_fuel (suc n) (suc more) e w p c one l =
      run_loop-fuel n more e w (omega (arith, p)) (omega arith)

  -- From an execution without attempts the loop runs at most as many processes as the retry policy
  -- allows attempts, and that number is also enough fuel: with any more of it the loop does the same,
  -- so it never ends for want of fuel.
  pub attempts_bounded :
      (e : Execution) (w : World L) (more : ℕ)
      → attempt_count e ≡ 0
      → 1 ≤ revision.controls.retry.max_attempts
      → revision.controls.retry.max_attempts ≤ more
      → ((run_loop env revision.controls.retry.max_attempts e revision executor environment
            w).1.runs
          ≤ w.runs + revision.controls.retry.max_attempts)
        × (run_loop env more e revision executor environment w
            ≡ run_loop env revision.controls.retry.max_attempts e revision executor environment w)
  attempts_bounded e w more c one enough = (
    (run_loop-Counts revision.controls.retry.max_attempts w.runs e w (omega arith)).runs,
    enough_fuel revision.controls.retry.max_attempts more e w refl c one enough,
  )
