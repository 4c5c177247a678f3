-- ===== src/Runtime/Running.antt =====
-- The attempts of a run keep the row of their execution
-- (src/taskcontrol/application/runtime/service.py, `_finish` and `_run_attempts`).
use task_control.Errors.{ok}
use task_control.Execution.Attempt
use task_control.Execution.Attempt.{ExecutionAttempt, new_attempt}
use task_control.Execution.Loading.{
  IsOwn, IsLoadable, new_attempt-IsLoadable, finish-IsLoadable, begin_attempt-IsOwn,
  record_attempt_result-IsOwn, finish-IsOwn,
}
use task_control.Execution.Reasons.{ReasonCode}
use task_control.Execution.Record.{
  Execution, is_finished, attempt_count, begin_attempt, record_attempt_result, finish,
}
use task_control.Execution.Results.{validate_result}
use task_control.Execution.Vocabulary.{ExecutionOutcome, is_terminal}
use task_control.Persistence.Executions.{Table, find}
use task_control.Prelude.{
  ℕ, zero, suc, ◌+◌, String, ◌≡◌, ap, ◌∙◌, true, false, Option, some, List, arith,
}
use task_control.Runtime.Attempts.{
  RunRequest, finish_execution, request_for, run_attempt, run_loop, run_attempts,
  resolve_environment, explain,
}
use task_control.Runtime.Keeping.{
  IsKept, IsStored, Holds, sequel-Holds, Holds-map, return-Holds, step-Holds, saved-Holds,
  lift-Holds, save_execution-Holds,
}
use task_control.Runtime.World.{
  Environment, World, Action, TaskRevision, Executor, ExecutionRequest, ExecutionReport,
  get_executor,
}

-- Every report of a registered executor carries a result that its constructor has accepted.
abbrev pub ReportsValid : {L : Type 0} → Environment L → Type 0
ReportsValid env =
    (executor_type : String) (executor : Executor) (request : ExecutionRequest) (n : ℕ)
    (report : ExecutionReport)
    → env.executors executor_type ≡ some executor
    → executor request n ≡ ok report
    → validate_result report.result ≡ ok report.result

pub record IsEnded (id : String) (t : Table) (e : Execution) : Type 0 where
  pub ended : is_finished e ≡ true
  pub row : Execution
  pub found : find id t ≡ some row
  pub row_ended : is_finished row ≡ true

pub state-finish :
    (e : Execution) (o : ExecutionOutcome) (t : _) (r : Option ReasonCode) (x : String)
    {f : Execution}
    → finish e o t r x ≡ ok f
    → is_finished f ≡ true
unfolding finish
state-finish e o t r x {f} h = ground arith

stored-IsEnded :
    (id : String) (t : Table) (f g : Execution)
    → is_finished f ≡ true
    → g ≡ f
    → IsStored id t f.state
    → IsEnded id t g
stored-IsEnded id t f g d p s = record {
  ended = ap is_finished p ∙ d;
  row = s.row;
  found = s.found;
  row_ended = ap is_terminal s.same_state ∙ d;
}

module _ {L : Type 0} (env : Environment L) (id : String) (t0 : Table) where
  pub finish_execution-Holds :
      (e : Execution) (o : ExecutionOutcome) (r : Option ReasonCode) (x : String) (w : World L)
      → IsKept id t0 w.executions
      → IsOwn id e
      → Holds id t0 (λ f w'. IsEnded id w'.executions f) (finish_execution env e o r x w)
  unfolding finish_execution
  finish_execution-Holds e o r x w k v =
      sequel-Holds {L = L} id t0 (λ f _. IsOwn id f × (is_finished f ≡ true)) _ _
        (lift-Holds id t0 (λ f _. IsOwn id f × (is_finished f ≡ true))
          (finish e o (env.now w.ticks) r x) _ k
          (λ f h. (
            finish-IsOwn id e o (env.now w.ticks) r x v h,
            state-finish e o (env.now w.ticks) r x h,
          )))
        (λ f w1 k1 q.
          Holds-map id t0 (λ e' w'. (e' ≡ f) × IsStored id w'.executions f.state)
            (λ g w' s. stored-IsEnded id w'.executions f g q.1 s.0 s.1)
            (save_execution-Holds id t0 env f w1 k1 q.0))

  run_attempt-Holds :
      (e : Execution) (revision : TaskRevision) (executor : Executor)
      (environment : List (String × String)) (w : World L)
      → ReportsValid env
      → env.executors revision.action.executor_type ≡ some executor
      → IsKept id t0 w.executions
      → IsOwn id e
      → Holds id t0
          (λ found _. IsOwn id found.0)
          (run_attempt env e revision executor environment w)
  unfolding run_attempt
  run_attempt-Holds e revision executor environment w reports ex k v =
      let executor_type = revision.action.executor_type in
      let number = attempt_count e + 1 in
      step-Holds {L = L} id t0 IsLoadable
        (new_attempt (env.generate w.identifiers) e.execution_id number (env.now w.ticks)
          executor_type)
        _ _ k
        (λ a h.
          new_attempt-IsLoadable (env.generate w.identifiers) e.execution_id number
            (env.now w.ticks) executor_type h)
        (λ attempt la.
          step-Holds {L = L} id t0 (IsOwn id) (begin_attempt e attempt (env.now w.ticks)) _ _ k
            (λ b h. begin_attempt-IsOwn id e attempt (env.now w.ticks) v la h)
            (λ begun vb. saved-Holds {L = L} id t0 env begun _ k vb (λ running w1 k1 vr _.
              step-Holds {L = L} id t0 (λ report. validate_result report.result ≡ ok report.result)
                (executor (request_for revision environment) w1.runs) _ _ k1
                (λ report h.
                  reports executor_type executor (request_for revision environment) w1.runs report
                    ex h)
                (λ report good.
                  step-Holds {L = L} id t0 IsLoadable
                    (Attempt.finish attempt report.result (env.now w1.ticks) report.stdout
                      report.stderr)
                    _ _ k1
                    (λ b h.
                      finish-IsLoadable attempt report.result (env.now w1.ticks) report.stdout
                        report.stderr la good h)
                    (λ finished lf.
                      step-Holds {L = L} id t0 (IsOwn id) (record_attempt_result running finished) _
                        _ k1 (λ b h. record_attempt_result-IsOwn id running finished vr lf h)
                        (λ recorded vc.
                          saved-Holds {L = L} id t0 env recorded _ k1 vc (λ saved w2 k2 vs _.
                            return-Holds {L = L} id t0 (λ found _. IsOwn id found.0) _ w2 k2
                              vs)))))))

  run_loop-Holds :
      (fuel : ℕ) (e : Execution) (revision : TaskRevision) (executor : Executor)
      (environment : List (String × String)) (w : World L)
      → ReportsValid env
      → env.executors revision.action.executor_type ≡ some executor
      → IsKept id t0 w.executions
      → IsOwn id e
      → Holds id t0
          (λ f w'. IsEnded id w'.executions f)
          (run_loop env fuel e revision executor environment w)
  unfolding run_loop
  run_loop-Holds zero e revision executor environment w reports ex k v = record {
    kept = k;
    value = λ a q. cc;
  }
  run_loop-Holds (suc fuel) e revision executor environment w reports ex k v =
      sequel-Holds {L = L} id t0 (λ found _. IsOwn id found.0) _ _
        (run_attempt-Holds e revision executor environment w reports ex k v)
        (λ found w1 k1 v1.
          elim found.2.should_retry
            as (λ b.
              Holds id t0 (λ f w'. IsEnded id w'.executions f)
                ((elim b as (λ _. Action L Execution) [
                  | true ↦ run_loop env fuel found.0 revision executor environment
                  | false ↦
                      finish_execution env found.0 found.1.outcome found.1.reason_code
                        (explain found.1 found.2)
                ])
                  w1)) [
                    | true ↦
                        run_loop-Holds fuel found.0 revision executor environment w1 reports ex k1
                          v1
                    | false ↦
                        finish_execution-Holds found.0 found.1.outcome found.1.reason_code
                          (explain found.1 found.2) w1 k1 v1
                  ])

  pub run_attempts-Holds :
      (e : Execution) (revision : TaskRevision) (request : RunRequest) (w : World L)
      → ReportsValid env
      → IsKept id t0 w.executions
      → IsOwn id e
      → Holds id t0 (λ f w'. IsEnded id w'.executions f) (run_attempts env e revision request w)
  unfolding run_attempts
  run_attempts-Holds e revision request w reports k v =
      step-Holds {L = L} id t0
        (λ executor. env.executors revision.action.executor_type ≡ some executor)
        (get_executor env revision.action.executor_type) w _ k (λ executor h. ground arith)
        (λ executor ex.
          step-Holds {L = L} id t0 (λ _. Unit) (resolve_environment revision request) w _ k
            (λ _ _. tt)
            (λ environment _.
              run_loop-Holds revision.controls.retry.max_attempts e revision executor environment w
                reports ex k v))
