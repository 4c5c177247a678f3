-- ===== src/Runtime/Blocking.antt =====
-- A run whose overlap lock is held (src/taskcontrol/application/runtime/service.py, `_execute`).
use task_control.Errors.{Result, ok}
use task_control.Execution.Invariant.{IsConsistent}
use task_control.Execution.Reasons.{blocked_overlap_lock_held, matches}
use task_control.Execution.Record.{Execution, transition_to, finish, max_explanation_length}
use task_control.Execution.Vocabulary.{pending, evaluating, finished, blocked}
use task_control.Persistence.Executions.{
  Table, find, put, save, saved_row, has_duplicates, merge_attempts,
}
use task_control.Persistence.Rows.{find_id, find-put}
use task_control.Prelude.{
  ℕ, suc, String, ◌≡◌, refl, ap, ◌∙◌, ◌≤◌, true, false, Option, none, some, [], ◌∷◌, len, concat,
  arith,
}
use task_control.Runtime.Attempts.{RunRequest, stores, save_execution, finish_execution}
use task_control.Runtime.Service.{execute, execute_evaluating, execute_locked, leave, clean_up}
use task_control.Runtime.World.{
  Environment, World, TaskRevision, Fault, no_fault, commit, sequel, LockHandle,
}
use task_control.Tasks.Task.{Task}

abbrev pub blocked_explanation : String → String
blocked_explanation scope =
    concat ("Another execution of this task is already running in " ∷ scope ∷ "." ∷ [])

-- what is recorded of an execution that the lock has kept from running
abbrev pub blocked_execution : Execution → String → ℕ → Execution
blocked_execution e scope now = record e {
  state = finished;
  outcome = some blocked;
  reason_code = some blocked_overlap_lock_held;
  explanation = blocked_explanation scope;
  finished_at = some now;
}

begin_evaluating :
    (e : Execution)
    → IsConsistent e
    → e.state ≡ pending
    → transition_to e evaluating ≡ ok (record e { state = evaluating })
unfolding transition_to
begin_evaluating e c p = ground arith

matches-blocked : matches blocked_overlap_lock_held blocked ≡ true
unfolding matches
matches-blocked = refl

finish_blocked :
    (e : Execution) (scope : String) (now : ℕ)
    → e.state ≡ evaluating
    → len (blocked_explanation scope) ≤ max_explanation_length
    → finish e blocked now (some blocked_overlap_lock_held) (blocked_explanation scope)
      ≡ ok (blocked_execution e scope now)
unfolding finish
finish_blocked e scope now p l = ground (arith, matches-blocked)

save-no_attempts :
    (e row : Execution) (t : Table)
    → find e.execution_id t ≡ some row
    → row.attempts ≡ []
    → e.attempts ≡ []
    → save e t ≡ ok (put (saved_row row e) t)
unfolding save merge_attempts has_duplicates
save-no_attempts e row t f a b =
    let d : has_duplicates (saved_row row e).attempts ≡ false =
      ap (λ xs. has_duplicates (merge_attempts xs e.attempts xs)) a
      ∙ ap (λ ys. has_duplicates (merge_attempts [] ys [])) b in
    ground arith

merged-none :
    (row e : Execution) → row.attempts ≡ [] → e.attempts ≡ [] → (saved_row row e).attempts ≡ []
unfolding merge_attempts
merged-none row e a b =
    ap (λ xs. merge_attempts xs e.attempts xs) a ∙ ap (λ ys. merge_attempts [] ys []) b

module _ {L : Type 0} (env : Environment L) (quiet : (n : ℕ) → env.fault n ≡ no_fault) where
  -- the world after a save of an execution without attempts
  abbrev saved : Execution → Execution → World L → World L
  saved row e w = record w {
    executions = put (saved_row row e) w.executions;
    transactions = suc w.transactions;
  }

  save_execution-quiet :
      (e row : Execution) (w : World L)
      → find e.execution_id w.executions ≡ some row
      → row.attempts ≡ []
      → e.attempts ≡ []
      → save_execution env e w ≡ (ok e, saved row e w)
  unfolding save_execution
  save_execution-quiet e row w f a b =
      let w1 : World L = record w { transactions = suc w.transactions } in
      let after = λ (r : Result Table) (x : Fault).
        sequel {L = L} (λ _ w'. (ok e, w')) (commit env w1 (stores r) x) in
      ap (λ r. after r (env.fault w.transactions)) (save-no_attempts e row w.executions f a b)
      ∙ ap (after (ok (put (saved_row row e) w.executions))) (quiet w.transactions)

  finish_execution-quiet :
      (e row : Execution) (w : World L)
      → e.state ≡ evaluating
      → len (blocked_explanation env.lock.scope_description) ≤ max_explanation_length
      → find e.execution_id w.executions ≡ some row
      → row.attempts ≡ []
      → e.attempts ≡ []
      → let e' = blocked_execution e env.lock.scope_description (env.now w.ticks) in
        finish_execution env e blocked
          (some blocked_overlap_lock_held)
          (blocked_explanation env.lock.scope_description)
          w
        ≡ (ok e', saved row e' (record w { ticks = suc w.ticks }))
  unfolding finish_execution
  finish_execution-quiet e row w p l f a b =
      let w1 : World L = record w { ticks = suc w.ticks } in
      ap (λ (r : Result Execution). sequel {L = L} (λ x. save_execution env x) (r, w1))
        (finish_blocked e env.lock.scope_description (env.now w.ticks) p l)
      ∙ save_execution-quiet (blocked_execution e env.lock.scope_description (env.now w.ticks)) row
          w1 f a b

  -- Where no transaction fails, and the overlap lock answers that another execution holds it, a
  -- stored execution that is pending and has no attempts ends at once: it is returned as blocked, with
  -- the reason that the lock is held, no process is run, and the lock is not asked to release
  -- anything. The explanation, which names the scope of the lock, has to fit its limit.
  pub blocked_runs_nothing :
      (e row : Execution) (task : Task) (revision : TaskRevision) (request : RunRequest)
      (w : World L) (held : L)
      → IsConsistent e
      → e.state ≡ pending
      → e.attempts ≡ []
      → find e.execution_id w.executions ≡ some row
      → row.attempts ≡ []
      → len (blocked_explanation env.lock.scope_description) ≤ max_explanation_length
      → env.lock.try_acquire task.task_id
          (concat (env.owner_identity ∷ ":" ∷ e.execution_id ∷ []))
          w.lock_state
        ≡ (ok none, held)
      → let r = execute env e task revision request w in
        (r.0 ≡ ok (blocked_execution e env.lock.scope_description (env.now w.ticks)))
        × (r.1.runs ≡ w.runs)
        × (r.1.lock_state ≡ held)
  unfolding execute execute_evaluating execute_locked clean_up
  blocked_runs_nothing e row task revision request w held c p b f a l answer =
      let e1 : Execution = record e { state = evaluating } in
      let s1 = begin_evaluating e c p in
      let s2 = save_execution-quiet e1 row w f a b in
      let w1 : World L = saved row e1 w in
      let w2 : World L = record w1 { lock_state = held } in
      let row1 : Execution = saved_row row e1 in
      let f1 =
        find-put e.execution_id row1 w.executions {row = row}
          (find_id e.execution_id w.executions f) f in
      let s4 = finish_execution-quiet e1 row1 w2 refl l f1 (merged-none row e1 a b) b in
      let total =
        ap
          (λ (r : Result Execution).
            execute_evaluating env e task revision request
              (sequel {L = L} (λ x. save_execution env x) (r, w)))
          s1
        ∙ ap (execute_evaluating env e task revision request) s2
        ∙ ap
            (λ (x : Result (Option LockHandle) × L).
              execute_locked env e1 revision request (x.0, record w1 { lock_state = x.1 }))
            answer
        ∙ ap (leave env e1 none) s4 in
      (ap (λ x. x.0) total, ap (λ x. x.1.runs) total, ap (λ x. x.1.lock_state) total)
