-- ===== src/Runtime/Runs.antt =====
-- What a whole `run` does to the stored executions
-- (src/taskcontrol/application/runtime/service.py).
use task_control.Errors.{Result, ok, raise}
use task_control.Execution.Loading.{IsOwn}
use task_control.Execution.Record.{Execution, Requested, requested}
use task_control.Persistence.Adding.{add-IsAdded}
use task_control.Persistence.Executions.{Table, find, add, find_by_idempotency_key, has_duplicates}
use task_control.Persistence.Rows.{IsSound}
use task_control.Prelude.{
  ℕ, suc, String, ◌≡◌, refl, or_else, sym, ap, ◌∙◌, ◌⊎◌, false, Option, none, some, inl, inr, arith,
}
use task_control.Runtime.Attempts.{RunRequest, stores}
use task_control.Runtime.Closing.{IsClosed}
use task_control.Runtime.Keeping.{IsKept}
use task_control.Runtime.Running.{ReportsValid}
use task_control.Runtime.Service.{
  RunResult, reads, load_runnable, find_duplicate, persist_new, request_execution, execute, run,
  duplicate_or_new, run_new,
}
use task_control.Runtime.Terminal.{execute-IsClosed}
use task_control.Runtime.World.{
  Environment, World, Action, TaskRevision, Fault, no_fault, before_commit, after_commit, commit,
  sequel,
}
use task_control.Tasks.Task.{Task}

requested-IsSound :
    (r : Requested) {e : Execution} → requested r ≡ ok e → IsSound e × IsOwn e.execution_id e
unfolding requested has_duplicates
requested-IsSound r {e} h = ground arith

module _ {L : Type 0} (env : Environment L) (t0 : Table) where
  -- The table is as it was, or has one row more, which is finished unless the last transaction failed
  -- or the lock raised at its release.
  pub record IsRun {A : Type 0} (p : Result A × World L) : Type 0 where
    pub effect :
        (p.1.executions ≡ t0) ⊎ ((id : String) × (find id t0 ≡ none) × IsClosed env id t0 p)

  unchanged : {A : Type 0} (p : Result A × World L) → p.1.executions ≡ t0 → IsRun p
  unchanged p q = record { effect = inl q }

  executions-commit_reads :
      {A : Type 0} (w : World L) (r : Result A) (x : Fault)
      → (commit env w (reads w.executions r) x).1.executions ≡ w.executions
  executions-commit_reads w (ok a) no_fault = refl
  executions-commit_reads w (ok a) (before_commit x) = refl
  executions-commit_reads w (ok a) (after_commit x) = refl
  executions-commit_reads w (raise e) no_fault = refl
  executions-commit_reads w (raise e) (before_commit x) = refl
  executions-commit_reads w (raise e) (after_commit x) = refl

  executions-find_duplicate :
      (request : RunRequest) (w : World L)
      → (find_duplicate env request w).1.executions ≡ w.executions
  unfolding find_duplicate
  executions-find_duplicate request w =
      elim request.idempotency_key
        as (λ k.
          (◌≡◌ {A = Table}
            (elim k as (λ _. Result (Option Execution) × World L) [
              | none ↦ (ok none, w)
              | some key ↦
                  commit env (record w { transactions = suc w.transactions })
                    (reads w.executions (find_by_idempotency_key request.task_id key w.executions))
                    (env.fault w.transactions)
            ]).1.executions
            w.executions)) [
              | none ↦ refl
              | some key ↦
                  executions-commit_reads (record w { transactions = suc w.transactions })
                    (find_by_idempotency_key request.task_id key w.executions)
                    (env.fault w.transactions)
            ]

  sequel-IsRun :
      {A B : Type 0} (k : A → Action L B) (p : Result A × World L)
      → p.1.executions ≡ t0
      → ((a : A) (w : World L) → p.0 ≡ ok a → w.executions ≡ t0 → IsRun (k a w))
      → IsRun (sequel k p)
  sequel-IsRun k (ok a, w) q f = f a w refl q
  sequel-IsRun k (raise x, w) q f = unchanged (raise x, w) q

  added-IsKept :
      (e : Execution) {t : Table}
      → IsSound e
      → add e t0 ≡ ok t
      → (find e.execution_id t0 ≡ none) × IsKept e.execution_id t0 t
  added-IsKept e {t} s h =
      let a = add-IsAdded e t0 h in
      (
        a.absent,
        record { row = e; is_row = record { found = a.found; sound = s }; others = a.others },
      )

  persisted-IsRun :
      {B : Type 0} (e : Execution) (w : World L) (n : ℕ) (r : Result Table) (x : Fault)
      (k : Unit {0} → Action L B)
      → w.transactions ≡ suc n
      → env.fault n ≡ x
      → w.executions ≡ t0
      → add e t0 ≡ r
      → IsSound e
      → ((w' : World L)
          → IsKept e.execution_id t0 w'.executions
          → IsClosed env e.execution_id t0 (k tt w'))
      → IsRun (sequel k (commit env w (stores r) x))
  persisted-IsRun e w n (ok t) no_fault k p q s a v f =
      let (absent, kept) = added-IsKept e v a in
      record { effect = inr (e.execution_id, absent, f (record w { executions = t }) kept) }
  persisted-IsRun e w n (ok t) (before_commit x) k p q s a v f = unchanged _ s
  persisted-IsRun e w n (ok t) (after_commit x) k p q s a v f =
      let (absent, kept) = added-IsKept e v a in
      record {
        effect =
            inr
              (e.execution_id, absent, record { kept = kept; closed = inr (inl (n, p, λ h. cc)) });
      }
  persisted-IsRun e w n (raise y) no_fault k p q s a v f = unchanged _ s
  persisted-IsRun e w n (raise y) (before_commit x) k p q s a v f = unchanged _ s
  persisted-IsRun e w n (raise y) (after_commit x) k p q s a v f = unchanged _ s

  return-IsClosed :
      {A B : Type 0} (f : A → B) (id : String) (p : Result A × World L)
      → IsClosed env id t0 p
      → IsClosed env id t0 (sequel (λ a w. (ok (f a), w)) p)
  return-IsClosed f id (ok a, w) c = record {
    kept = c.kept;
    closed = elim c.closed [
      | inl ended ↦ inl ended
      | inr (inl failed) ↦ inr (inl failed)
      | inr (inr (h, l, x, e, differs)) ↦ absurd (cc differs)
    ];
  }
  return-IsClosed f id (raise y, w) c = record {
    kept = c.kept;
    closed = elim c.closed [
      | inl ended ↦ inl ended
      | inr (inl failed) ↦ inr (inl failed)
      | inr (inr (h, l, x, e, same)) ↦ inr (inr (h, l, x, e, ground (arith, same)))
    ];
  }

  executions-request_execution :
      (task : Task) (revision : TaskRevision) (request : RunRequest) (w : World L)
      → (request_execution env task revision request w).1.executions ≡ w.executions
  unfolding request_execution
  executions-request_execution task revision request w = refl

  request_execution-IsSound :
      (task : Task) (revision : TaskRevision) (request : RunRequest) (w : World L) {e : Execution}
      → (request_execution env task revision request w).0 ≡ ok e
      → IsSound e × IsOwn e.execution_id e
  unfolding request_execution
  request_execution-IsSound task revision request w {e} h =
      requested-IsSound
        (record {
          execution_id = env.generate (suc w.identifiers);
          task_id = task.task_id;
          revision_id = revision.revision_id;
          trigger_source = request.trigger_source;
          requested_at = env.now w.ticks;
          correlation_id = some (or_else request.correlation_id (env.generate w.identifiers));
          idempotency_key = request.idempotency_key;
          requested_by = request.requested_by;
        })
        h

  created : Execution → RunResult
  created e = record { execution = e; was_duplicate = false }

  run_new-IsRun :
      (task : Task) (revision : TaskRevision) (request : RunRequest) (w : World L)
      → ReportsValid env
      → w.executions ≡ t0
      → IsRun (run_new env task revision request w)
  unfolding run_new persist_new created
  run_new-IsRun task revision request w reports q =
      sequel-IsRun _ (request_execution env task revision request w)
        (executions-request_execution task revision request w ∙ q)
        (λ e w1 h q1.
          let (sound, own) = request_execution-IsSound task revision request w h in
          persisted-IsRun e (record w1 { transactions = suc w1.transactions }) w1.transactions
            (add e w1.executions) (env.fault w1.transactions) _ refl refl q1 (ap (add e) (sym q1))
            sound
            (λ w2 k.
              return-IsClosed created e.execution_id (execute env e task revision request w2)
                (execute-IsClosed env e.execution_id t0 e task revision request w2 reports own k)))

  duplicate_or_new-IsRun :
      (task : Task) (revision : TaskRevision) (request : RunRequest) (duplicate : Option Execution)
      (w : World L)
      → ReportsValid env
      → w.executions ≡ t0
      → IsRun (duplicate_or_new env task revision request duplicate w)
  duplicate_or_new-IsRun task revision request none w reports q =
      run_new-IsRun task revision request w reports q
  duplicate_or_new-IsRun task revision request (some e) w reports q = unchanged _ q

  pub run-IsRun :
      (request : RunRequest) (w : World L)
      → ReportsValid env
      → w.executions ≡ t0
      → IsRun (run env request w)
  unfolding run
  run-IsRun request w reports q =
      sequel-IsRun _
        (commit env (record w { transactions = suc w.transactions })
          (reads w.executions (load_runnable env request.task_id)) (env.fault w.transactions))
        (executions-commit_reads (record w { transactions = suc w.transactions })
            (load_runnable env request.task_id) (env.fault w.transactions)
          ∙ q)
        (λ found w1 _ q1.
          sequel-IsRun _ (find_duplicate env request w1) (executions-find_duplicate request w1 ∙ q1)
            (λ duplicate w2 _ q2.
              duplicate_or_new-IsRun found.0 found.1 request duplicate w2 reports q2))

-- A run leaves the stored executions as they were, or adds the row of one execution that was not
-- there. Then no other row is touched, and the row is finished at the end, whatever the executor and
-- the database raise, except where the run's last transaction failed, or where the run itself
-- raised, with an exception that the lock's release raised and with the lock as that release left
-- it. Where there is a report of a process, its result is one that its constructor accepts.
pub run_ends :
    {L : Type 0} (env : Environment L) (request : RunRequest) (w : World L)
    → ReportsValid env
    → let after = run env request w in
      (after.1.executions ≡ w.executions)
      ⊎ ((id : String) × (find id w.executions ≡ none) × IsClosed env id w.executions after)
run_ends env request w reports = (run-IsRun env w.executions request w reports refl).effect
