-- ===== src/Runtime/Service.antt =====
-- `RuntimeService.run` (src/taskcontrol/application/runtime/service.py) with `_execute`, its handlers
-- and its `finally`, `_force_terminal`, `_load` and `_find_duplicate`. Logging is left out.
use task_control.Errors.{
  Exception, Result, ok, raise, error, not_found, validation_error, is_task_control_error,
  is_exception,
}
use task_control.Execution.Reasons.{blocked_overlap_lock_held, infrastructure_executor_unavailable}
use task_control.Execution.Record.{Execution, requested, is_finished, transition_to, finish}
use task_control.Execution.Vocabulary.{evaluating, blocked, infrastructure_failed, unknown}
use task_control.Persistence.Executions.{Table, get, add, save, find_by_idempotency_key}
use task_control.Prelude.{
  String, Bool, true, false, Option, none, some, [], ◌∷◌, or_else, if◌then◌else◌, concat,
}
use task_control.Runtime.Attempts.{
  RunRequest, stores, save_execution, finish_execution, run_attempts,
}
use task_control.Runtime.World.{
  LockHandle, TaskRevision, Environment, World, Action, ◌>>=◌, ◌>>◌, return, lift, read_clock,
  generate_id, transaction, try_acquire, release,
}
use task_control.Tasks.Lifecycle.{is_draft}
use task_control.Tasks.Task.{Task}
use task_control.Values.{Timestamp}

pub record RunResult : Type 0 where
  pub execution : Execution
  pub was_duplicate : Bool

-- `exc.message` of a `TaskControlError`; no other exception is asked for it
abbrev pub exception_message : Exception → String
exception_message (error _ message) = message
exception_message _ = ""

-- a repository call that only reads
abbrev pub reads : {A : Type 0} → Table → Result A → Result (A × Table)
reads t (ok a) = ok (a, t)
reads t (raise x) = raise x

-- what `_force_terminal` does within its transaction; where there is nothing to do it commits
-- nothing
unfoldable pub finish_current : String → Timestamp → Table → Result (Unit {0} × Table)
finish_current id now t = elim (get id t) [
  | raise x ↦ raise x
  | ok none ↦ ok (tt, t)
  | ok (some current) ↦
      if is_finished current
      then ok (tt, t)
      else stores
          (elim (finish current unknown now none
            "The runtime exited without recording an outcome. This execution requires reconciliation.") [
              | raise x ↦ raise x
              | ok finished ↦ save finished t
            ])
]

module _ {L : Type 0} (env : Environment L) where
  -- `except Exception` around the body of `_force_terminal`
  abbrev pub swallow : Result (Unit {0}) × World L → Result (Unit {0}) × World L
  swallow (ok _, w) = (ok tt, w)
  swallow (raise x, w) = if is_exception x then (ok tt, w) else (raise x, w)

  -- `_force_terminal`; the clock is read whether or not there is something to finish
  unfoldable pub force_terminal : Execution → Action L (Unit {0})
  unfolding finish_current
  force_terminal e w =
      let (_, w') = read_clock env w in
      swallow (transaction env (finish_current e.execution_id (env.now w.ticks)) w')

  -- the `finally` of `_execute`, after which the call ends as `outcome` says
  unfoldable pub clean_up :
      Execution → Option LockHandle → Option Execution → Result Execution → Action L Execution
  unfolding force_terminal
  clean_up e handle finished outcome = do
    elim handle [ none ↦ return tt | some h ↦ release env h ]
    elim finished [
      | none ↦ force_terminal e
      | some f ↦ if is_finished f then return tt else force_terminal e
    ]
    lift outcome

  -- how a handler of `_execute` ends: `raised` is what it raises when it has recorded the end
  abbrev pub after_handler :
      Execution
      → Option LockHandle
      → (Execution → Result Execution)
      → Result Execution × World L
      → Result Execution × World L
  after_handler e handle then_ (ok finished, w) =
      clean_up e handle (some finished) (then_ finished) w
  after_handler e handle then_ (raise x, w) = clean_up e handle none (raise x) w

  -- the handlers of `_execute`: `except TaskControlError`, which ends the call normally, and `except
  -- BaseException`, which raises again
  unfoldable pub handle_exception : Exception → Execution → Option LockHandle → Action L Execution
  unfolding finish_execution clean_up
  handle_exception x e handle w =
      if is_task_control_error x
      then after_handler e handle ok (
          finish_execution env e infrastructure_failed (some infrastructure_executor_unavailable)
            (exception_message x) w)
      else after_handler e handle (λ _. raise x)
          (finish_execution env e unknown none
            "The runtime was interrupted and cannot prove what happened. This execution requires reconciliation."
            w)

  -- the end of `_execute`'s body: both ways out lead through the `finally`
  abbrev pub leave :
      Execution → Option LockHandle → Result Execution × World L → Result Execution × World L
  leave e handle (ok finished, w) = clean_up e handle (some finished) (ok finished) w
  leave e handle (raise x, w) = handle_exception x e handle w

  -- what follows once the lock has been asked
  unfoldable pub execute_locked :
      Execution
      → TaskRevision
      → RunRequest
      → Result (Option LockHandle) × World L
      → Result Execution × World L
  unfolding handle_exception clean_up run_attempts finish_execution
  execute_locked e revision request (raise x, w) = handle_exception x e none w
  execute_locked e revision request (ok none, w) = leave e none (
      finish_execution env e blocked (some blocked_overlap_lock_held)
        (concat (
          "Another execution of this task is already running in " ∷ env.lock.scope_description ∷ "."
          ∷ []))
        w)
  execute_locked e revision request (ok (some handle), w) =
      leave e (some handle) (run_attempts env e revision request w)

  -- `_execute` from the first transition on
  unfoldable pub execute_evaluating :
      Execution
      → Task
      → TaskRevision
      → RunRequest
      → Result Execution × World L
      → Result Execution × World L
  unfolding execute_locked handle_exception
  execute_evaluating pending task revision request (raise x, w) = handle_exception x pending none w
  execute_evaluating pending task revision request (ok e, w) =
      execute_locked e revision request
        (try_acquire env task.task_id (concat (env.owner_identity ∷ ":" ∷ e.execution_id ∷ [])) w)

  -- `_execute`
  unfoldable pub execute : Execution → Task → TaskRevision → RunRequest → Action L Execution
  unfolding execute_evaluating save_execution
  execute e task revision request w =
      execute_evaluating e task revision request
        ((do next ← lift (transition_to e evaluating); save_execution env next) w)

  -- the checks of `_load`, within its transaction
  unfoldable pub load_runnable : String → Result (Task × TaskRevision)
  load_runnable task_id = elim (env.tasks task_id) [
    | none ↦ raise (error not_found "Task not found.")
    | some task ↦ elim task.active_revision_id [
      | none ↦
          validation_error
            "This task has no active revision, so there is nothing to run. Publish and activate a revision first."
      | some revision_id ↦ elim (env.revisions revision_id) [
        | none ↦ raise (error not_found "The task's active revision does not exist.")
        | some revision ↦
            if is_draft revision.publication_state
            then validation_error "A draft revision cannot be executed. Publish it first."
            else ok (task, revision)
      ]
    ]
  ]

  -- `_find_duplicate`, asked only where the request has a key
  unfoldable pub find_duplicate : RunRequest → Action L (Option Execution)
  find_duplicate request w = elim request.idempotency_key [
    | none ↦ (ok none, w)
    | some key ↦ transaction env (λ t. reads t (find_by_idempotency_key request.task_id key t)) w
  ]

  -- `_persist_new`
  unfoldable pub persist_new : Execution → Action L (Unit {0})
  persist_new e = transaction env (λ t. stores (add e t))

  -- `Execution.requested` as `run` calls it
  unfoldable pub request_execution : Task → TaskRevision → RunRequest → Action L Execution
  unfolding requested
  request_execution task revision request = do
    requested_at ← read_clock env
    correlation_id ← generate_id env
    execution_id ← generate_id env
    lift (
        requested (record {
          execution_id = execution_id;
          task_id = task.task_id;
          revision_id = revision.revision_id;
          trigger_source = request.trigger_source;
          requested_at = requested_at;
          correlation_id = some (or_else request.correlation_id correlation_id);
          idempotency_key = request.idempotency_key;
          requested_by = request.requested_by;
        }))

  -- `run` once it is no duplicate
  unfoldable pub run_new : Task → TaskRevision → RunRequest → Action L RunResult
  unfolding persist_new request_execution execute
  run_new task revision request = do
    e ← request_execution task revision request
    persist_new e
    finished ← execute e task revision request
    return (record { execution = finished; was_duplicate = false })

  -- `run` once it knows whether the request is a duplicate
  abbrev pub duplicate_or_new :
      Task → TaskRevision → RunRequest → Option Execution → Action L RunResult
  duplicate_or_new task revision request (some existing) =
      return (record { execution = existing; was_duplicate = true })
  duplicate_or_new task revision request none = run_new task revision request

  -- `run`
  unfoldable pub run : RunRequest → Action L RunResult
  unfolding load_runnable find_duplicate
  run request = do
    (task, revision) ← transaction env (λ t. reads t (load_runnable request.task_id))
    duplicate ← find_duplicate request
    duplicate_or_new task revision request duplicate
