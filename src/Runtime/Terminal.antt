-- ===== src/Runtime/Terminal.antt =====
-- The row of an execution behind `_execute` (src/taskcontrol/application/runtime/service.py).
use mathlib.Core.Path.{subst}
use task_control.Errors.{Exception, Result, ok, raise, is_task_control_error}
use task_control.Execution.Loading.{IsOwn, transition_to-IsOwn}
use task_control.Execution.Reasons.{blocked_overlap_lock_held, infrastructure_executor_unavailable}
use task_control.Execution.Record.{Execution, transition_to}
use task_control.Execution.Vocabulary.{evaluating, blocked, unknown, infrastructure_failed}
use task_control.Persistence.Executions.{Table}
use task_control.Prelude.{String, ◌≡◌, refl, sym, Option, none, some, if_elim}
use task_control.Runtime.Attempts.{RunRequest}
use task_control.Runtime.Closing.{IsClosed, clean_up-IsClosed}
use task_control.Runtime.Keeping.{
  IsKept, IsStored, Holds, step-Holds, save_execution-Holds, Holds-map,
}
use task_control.Runtime.Running.{ReportsValid, IsEnded, finish_execution-Holds, run_attempts-Holds}
use task_control.Runtime.Service.{
  after_handler, handle_exception, leave, exception_message, execute_locked, execute_evaluating,
  execute,
}
use task_control.Runtime.World.{LockHandle, TaskRevision, Environment, World}
use task_control.Tasks.Task.{Task}

module _ {L : Type 0} (env : Environment L) (id : String) (t0 : Table) where
  abbrev ClosedAfter : Result Execution × World L → Type 0
  ClosedAfter p = IsClosed env id t0 p

  after_handler-IsClosed :
      (e : Execution) (handle : Option LockHandle) (then_ : Execution → Result Execution)
      (p : Result Execution × World L)
      → IsOwn id e
      → Holds id t0 (λ f w. IsEnded id w.executions f) p
      → ClosedAfter (after_handler env e handle then_ p)
  after_handler-IsClosed e handle then_ (ok f, w) v h =
      clean_up-IsClosed env id t0 e handle (some f) (then_ f) w v.same_id h.kept (h.value f refl)
  after_handler-IsClosed e handle then_ (raise x, w) v h =
      clean_up-IsClosed env id t0 e handle none (raise x) w v.same_id h.kept tt

  handle_exception-IsClosed :
      (x : Exception) (e : Execution) (handle : Option LockHandle) (w : World L)
      → IsOwn id e
      → IsKept id t0 w.executions
      → ClosedAfter (handle_exception env x e handle w)
  unfolding handle_exception
  handle_exception-IsClosed x e handle w v k =
      if_elim ClosedAfter (is_task_control_error x)
        (after_handler-IsClosed e handle ok _ v (
          finish_execution-Holds env id t0 e infrastructure_failed
            (some infrastructure_executor_unavailable) (exception_message x) w k v))
        (after_handler-IsClosed e handle (λ _. raise x) _ v
          (finish_execution-Holds env id t0 e unknown none
            "The runtime was interrupted and cannot prove what happened. This execution requires reconciliation."
            w k v))

  leave-IsClosed :
      (e : Execution) (handle : Option LockHandle) (p : Result Execution × World L)
      → IsOwn id e
      → Holds id t0 (λ f w. IsEnded id w.executions f) p
      → ClosedAfter (leave env e handle p)
  leave-IsClosed e handle (ok f, w) v h =
      clean_up-IsClosed env id t0 e handle (some f) (ok f) w v.same_id h.kept (h.value f refl)
  leave-IsClosed e handle (raise x, w) v h = handle_exception-IsClosed x e handle w v h.kept

  execute_locked-IsClosed :
      (e : Execution) (revision : TaskRevision) (request : RunRequest)
      (p : Result (Option LockHandle) × World L)
      → ReportsValid env
      → IsOwn id e
      → IsKept id t0 p.1.executions
      → ClosedAfter (execute_locked env e revision request p)
  unfolding execute_locked
  execute_locked-IsClosed e revision request (raise x, w) reports v k =
      handle_exception-IsClosed x e none w v k
  execute_locked-IsClosed e revision request (ok none, w) reports v k =
      leave-IsClosed e none _ v
        (finish_execution-Holds env id t0 e blocked (some blocked_overlap_lock_held) _ w k v)
  execute_locked-IsClosed e revision request (ok (some handle), w) reports v k =
      leave-IsClosed e (some handle) _ v
        (run_attempts-Holds env id t0 e revision request w reports k v)

  execute_evaluating-IsClosed :
      (pending : Execution) (task : Task) (revision : TaskRevision) (request : RunRequest)
      (p : Result Execution × World L)
      → ReportsValid env
      → IsOwn id pending
      → Holds id t0 (λ e _. IsOwn id e) p
      → ClosedAfter (execute_evaluating env pending task revision request p)
  unfolding execute_evaluating
  execute_evaluating-IsClosed pending task revision request (raise x, w) reports v h =
      handle_exception-IsClosed x pending none w v h.kept
  execute_evaluating-IsClosed pending task revision request (ok e, w) reports v h =
      execute_locked-IsClosed e revision request _ reports (h.value e refl) h.kept

  pub execute-IsClosed :
      (e : Execution) (task : Task) (revision : TaskRevision) (request : RunRequest) (w : World L)
      → ReportsValid env
      → IsOwn id e
      → IsKept id t0 w.executions
      → ClosedAfter (execute env e task revision request w)
  unfolding execute
  execute-IsClosed e task revision request w reports v k =
      execute_evaluating-IsClosed e task revision request _ reports v (
        step-Holds {L = L} id t0 (IsOwn id) (transition_to e evaluating) w _ k
          (λ f h. transition_to-IsOwn id e evaluating v h)
          (λ f vf.
            Holds-map id t0 (λ e' w'. (e' ≡ f) × IsStored id w'.executions f.state)
              (λ a w' q. subst (IsOwn id) (sym q.0) vf) (save_execution-Holds id t0 env f w k vf)))
