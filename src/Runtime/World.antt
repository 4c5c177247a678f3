-- ===== src/Runtime/World.antt =====
-- What the runtime (src/taskcontrol/application/runtime/service.py) works on: the port of the overlap
-- lock (src/taskcontrol/ports/lock.py), the registry of executors
-- (src/taskcontrol/adapters/executors/registry.py), what it reads of a revision
-- (src/taskcontrol/domain/tasks/revision.py, actions.py), and actions that change the world and may
-- raise.
use task_control.Errors.{Exception, Result, ok, raise, validation_error}
use task_control.Execution.Results.{ProcessResult}
use task_control.Execution.Retries.{RetryPolicy, TimeoutPolicy}
use task_control.Persistence.Executions.{Table}
use task_control.Prelude.{ℕ, suc, String, Option, none, some, List}
use task_control.Tasks.Lifecycle.{PublicationState}
use task_control.Tasks.Task.{Task}
use task_control.Values.{Timestamp, Duration}

pub record LockHandle : Type 0 where
  pub key : String
  pub owner : String

-- `OverlapLock`: an implementation keeps a state of its own and may raise.
pub record OverlapLock (L : Type 0) : Type 0 where
  pub scope_description : String
  pub try_acquire : String → String → L → Result (Option LockHandle) × L
  pub release : LockHandle → L → Result (Unit {0}) × L

-- a variable of the environment that a revision binds: to a literal or to a secret
pub record EnvironmentBinding : Type 0 where
  pub name : String
  pub value : Option String
  pub secret : Option String

pub record ActionSpecification : Type 0 where
  pub executor_type : String
  pub environment : List EnvironmentBinding

pub record ExecutionControls : Type 0 where
  pub timeout : TimeoutPolicy
  pub retry : RetryPolicy

pub record TaskRevision : Type 0 where
  pub revision_id : String
  pub publication_state : PublicationState
  pub action : ActionSpecification
  pub controls : ExecutionControls

pub record ExecutionRequest : Type 0 where
  pub action : ActionSpecification
  pub environment : List (String × String)
  pub timeout : Duration
  pub termination_grace : Duration

-- `ExecutionReport` with the two texts of its `ExecutionOutput`
pub record ExecutionReport : Type 0 where
  pub result : ProcessResult
  pub stdout : String
  pub stderr : String

-- `Executor.run`: what the n-th run of a process answers
abbrev pub Executor : Type 0
Executor = ExecutionRequest → ℕ → Result ExecutionReport

-- What ends a transaction with an exception that is not its operation's own: the database or an
-- interrupt, before the commit or just after it.
pub data Fault : Type 0 where
  no_fault : Fault
  before_commit after_commit : Exception → Fault

-- What is outside the program, each part by the number of calls so far: the clock, the new
-- identifiers, the transactions that fail; and the tables of tasks and revisions, which the runtime
-- only reads.
pub record Environment (L : Type 0) : Type 0 where
  pub lock : OverlapLock L
  pub owner_identity : String
  pub tasks : String → Option Task
  pub revisions : String → Option TaskRevision
  pub executors : String → Option Executor
  pub now : ℕ → Timestamp
  pub generate : ℕ → String
  pub fault : ℕ → Fault

pub record World (L : Type 0) : Type 0 where
  pub executions : Table
  pub lock_state : L
  pub transactions : ℕ
  pub ticks : ℕ
  pub identifiers : ℕ
  pub runs : ℕ

abbrev pub Action : Type 0 → Type 0 → Type 0
Action L A = World L → Result A × World L

abbrev pub sequel : {L A B : Type 0} → (A → Action L B) → Result A × World L → Result B × World L
sequel k (ok a, w) = k a w
sequel k (raise e, w) = (raise e, w)

infixl 5 ◌>>=◌ ◌>>◌
abbrev pub ◌>>=◌ : {L A B : Type 0} → Action L A → (A → Action L B) → Action L B
(m >>= k) w = sequel k (m w)

abbrev pub ◌>>◌ : {L A B : Type 0} → Action L A → Action L B → Action L B
m >> k = m >>= λ _. k

abbrev pub return : {L A : Type 0} → A → Action L A
return a w = (ok a, w)

-- a call of code that changes nothing in the world
abbrev pub lift : {L A : Type 0} → Result A → Action L A
lift r w = (r, w)

module _ {L : Type 0} (env : Environment L) where
  -- `self._clock.now()`
  abbrev pub read_clock : Action L Timestamp
  read_clock w = (ok (env.now w.ticks), record w { ticks = suc w.ticks })

  -- `AttemptId.generate()` and its like
  abbrev pub generate_id : Action L String
  generate_id w = (ok (env.generate w.identifiers), record w { identifiers = suc w.identifiers })

  abbrev pub commit : {A : Type 0} → World L → Result (A × Table) → Fault → Result A × World L
  commit w r (before_commit x) = (raise x, w)
  commit w (raise e) _ = (raise e, w)
  commit w (ok (a, t)) no_fault = (ok a, record w { executions = t })
  commit w (ok (a, t)) (after_commit x) = (raise x, record w { executions = t })

  -- `with self._unit_of_work_factory() as uow: ...; uow.commit()`: what the operation makes of the
  -- table is kept if it ends well and the commit succeeds
  abbrev pub transaction : {A : Type 0} → (Table → Result (A × Table)) → Action L A
  transaction op w =
      commit (record w { transactions = suc w.transactions }) (op w.executions)
        (env.fault w.transactions)

  -- `self._executors.get(executor_type)`
  abbrev pub get_executor : String → Result Executor
  get_executor executor_type = elim (env.executors executor_type) [
    | none ↦ validation_error "No executor adapter is registered for this action type."
    | some executor ↦ ok executor
  ]

  -- `executor.run(request)`
  abbrev pub run_process : Executor → ExecutionRequest → Action L ExecutionReport
  run_process executor request w = (executor request w.runs, record w { runs = suc w.runs })

  -- `self._lock.try_acquire(task_id, owner=...)`
  abbrev pub try_acquire : String → String → Action L (Option LockHandle)
  try_acquire task_id owner w =
      let answer = env.lock.try_acquire task_id owner w.lock_state in
      (answer.0, record w { lock_state = answer.1 })

  abbrev pub release : LockHandle → Action L (Unit {0})
  release handle w =
      let answer = env.lock.release handle w.lock_state in
      (answer.0, record w { lock_state = answer.1 })
