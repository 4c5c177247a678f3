-- ===== src/Tests/Runs.antt =====
-- A runtime with one task, one executor and a lock that is a flag.
use mathlib.Core.Path.{subst}
use task_control.Errors.{Result, ok, raise}
use task_control.Execution.Record.{Execution, max_explanation_length, manual}
use task_control.Execution.Results.{validate_result}
use task_control.Execution.Vocabulary.{pending, evaluating}
use task_control.Persistence.Executions.{find}
use task_control.Prelude.{
  ◌∷◌, len, concat, String, ◌≡◌, refl, ◌⊎◌, ◌≤◌, ◌+◌, Bool, true, false, Option, some, none, [],
  arith, ◌==◌, ap, ◌∙◌, or_else, if◌then◌else◌,
}
use task_control.Runtime.Attempts.{RunRequest, run_loop}
use task_control.Runtime.Blocking.{blocked_explanation, blocked_execution, blocked_runs_nothing}
use task_control.Execution.Invariant.{IsConsistent}
use task_control.Runtime.Closing.{IsClosed}
use task_control.Runtime.Retrying.{attempts_bounded}
use task_control.Runtime.Running.{ReportsValid}
use task_control.Runtime.Runs.{run_ends}
use task_control.Runtime.Service.{run, execute}
use task_control.Runtime.World.{
  LockHandle, OverlapLock, TaskRevision, ExecutionReport, Executor, Environment, World, no_fault,
}
use task_control.Tasks.Lifecycle.{published}
use task_control.Tests.Executions.{clean_exit}
use task_control.Tests.Policies.{patient}
use task_control.Tests.Tasks.{live_backup}

abbrev pub acquire_flag : String → String → Bool → Result (Option LockHandle) × Bool
acquire_flag task_id owner held =
    if held then (ok none, true) else (ok (some (record { key = task_id; owner = owner })), true)

abbrev pub flag : OverlapLock Bool
flag = record {
  scope_description = "this TaskControl process only";
  try_acquire = acquire_flag;
  release = λ _ _. (ok tt, false);
}

abbrev pub nightly : TaskRevision
nightly = record {
  revision_id = "r1";
  publication_state = published;
  action = record { executor_type = "shell"; environment = [] };
  controls = record {
    timeout = record {
      run_timeout = record { seconds = 0 };
      termination_grace = record { seconds = 0 };
    };
    retry = patient;
  };
}

abbrev pub clean_report : ExecutionReport
clean_report = record { result = clean_exit; stdout = "ok"; stderr = "" }

abbrev pub shell : Executor
shell request n = ok clean_report

abbrev pub site : Environment Bool
site = record {
  lock = flag;
  owner_identity = "taskcontrol-runtime";
  tasks = λ _. some live_backup;
  revisions = λ _. some nightly;
  executors = λ _. some shell;
  now = λ n. n;
  generate = λ n. if n == 0 then "c1" else if n == 1 then "x1" else "a1";
  fault = λ _. no_fault;
}

abbrev pub start : World Bool
start = record {
  executions = [];
  lock_state = false;
  transactions = 0;
  ticks = 0;
  identifiers = 0;
  runs = 0;
}

abbrev run_now : RunRequest
run_now = record {
  task_id = "t1";
  trigger_source = manual;
  requested_by = none;
  correlation_id = none;
  idempotency_key = none;
  environment_overrides = [];
}

site-ReportsValid : ReportsValid site
unfolding validate_result
site-ReportsValid executor_type executor request n report known h =
    let same = ap (λ o. or_else o shell) known in
    let answered = ap (λ (f : Executor). f request n) same ∙ h in
    let given : clean_report ≡ report =
      ap (λ r. elim r [ ok x ↦ x | raise _ ↦ clean_report ]) answered in
    subst (λ (r : ExecutionReport). validate_result r.result ≡ ok r.result) given refl

run_ends_example :
    let after = run site run_now start in
    (after.1.executions ≡ []) ⊎ ((id : String) × (find id [] ≡ none) × IsClosed site id [] after)
run_ends_example = run_ends site run_now start site-ReportsValid

abbrev fresh_execution : Execution
fresh_execution = record {
  execution_id = "x1";
  task_id = "t1";
  revision_id = "r1";
  trigger_source = manual;
  requested_at = 0;
  state = evaluating;
  outcome = none;
  reason_code = none;
  explanation = "";
  attempts = [];
  started_at = none;
  finished_at = none;
  correlation_id = some "c1";
  idempotency_key = none;
  requested_by = none;
  configuration_digest = none;
}

attempts_bounded_example :
    ((run_loop site 3 fresh_execution nightly shell [] start).1.runs ≤ 0 + 3)
    × (run_loop site 10 fresh_execution nightly shell [] start
        ≡ run_loop site 3 fresh_execution nightly shell [] start)
attempts_bounded_example =
    attempts_bounded site nightly shell [] fresh_execution start 10 refl (omega arith) (omega arith)

abbrev waiting : Execution
waiting = record fresh_execution { state = pending }

abbrev busy : World Bool
busy = record start { executions = waiting ∷ []; lock_state = true }

waiting_stored : find "x1" (waiting ∷ []) ≡ some waiting
unfolding find
waiting_stored = refl

waiting-IsConsistent : IsConsistent waiting
unfolding len
waiting-IsConsistent = record {
  outcome_when_finished = refl;
  explained = tt;
  explanation_fits = omega arith;
}

explanation_fits :
    len (blocked_explanation "this TaskControl process only") ≤ max_explanation_length
unfolding len concat
explanation_fits = omega arith

blocked_runs_nothing_example :
    let r = execute site waiting live_backup nightly run_now busy in
    (r.0 ≡ ok (blocked_execution waiting "this TaskControl process only" 0))
    × (r.1.runs ≡ 0)
    × (r.1.lock_state ≡ true)
blocked_runs_nothing_example =
    blocked_runs_nothing site (λ n. refl) waiting waiting live_backup nightly run_now busy true
      waiting-IsConsistent refl refl waiting_stored refl explanation_fits refl
