-- ===== src/Persistence/Saving.antt =====
-- What `get` answers behind a `save` (src/taskcontrol/adapters/persistence/repositories.py).
use task_control.Errors.{ok}
use task_control.Execution.Invariant.{IsConsistent}
use task_control.Execution.Loading.{IsLoadable}
use task_control.Execution.Record.{Execution}
use task_control.Persistence.Executions.{Table, find, get, save, saved_row, merge_attempts}
use task_control.Persistence.Rows.{IsRow, reloaded, get-reloaded, save-IsRow, save-other}
use task_control.Prelude.{String, ◌≡◌, ◌≢◌, refl, sym, ◌∙◌, some, All, Any}
use task_control.Persistence.Merging.{Keeps, HaveOwnIds, merge_stores, each_sorted}

-- What `get` answers after a save of `e` over `row`.
pub record IsSaved (row e f : Execution) : Type 0 where
  pub state : f.state ≡ e.state
  pub outcome : f.outcome ≡ e.outcome
  pub reason_code : f.reason_code ≡ e.reason_code
  pub explanation : f.explanation ≡ e.explanation
  pub started_at : f.started_at ≡ e.started_at
  pub finished_at : f.finished_at ≡ e.finished_at
  pub configuration_digest : f.configuration_digest ≡ e.configuration_digest
  pub execution_id : f.execution_id ≡ row.execution_id
  pub task_id : f.task_id ≡ row.task_id
  pub revision_id : f.revision_id ≡ row.revision_id
  pub trigger_source : f.trigger_source ≡ row.trigger_source
  pub requested_at : f.requested_at ≡ row.requested_at
  pub correlation_id : f.correlation_id ≡ row.correlation_id
  pub idempotency_key : f.idempotency_key ≡ row.idempotency_key
  pub requested_by : f.requested_by ≡ row.requested_by
  pub attempts : All (λ a. Any (Keeps a) f.attempts) e.attempts

saved_row-IsSaved :
    (row e : Execution) → HaveOwnIds e.attempts → IsSaved row e (reloaded (saved_row row e))
saved_row-IsSaved row e own = record {
  state = refl;
  outcome = refl;
  reason_code = refl;
  explanation = refl;
  started_at = refl;
  finished_at = refl;
  configuration_digest = refl;
  execution_id = refl;
  task_id = refl;
  revision_id = refl;
  trigger_source = refl;
  requested_at = refl;
  correlation_id = refl;
  idempotency_key = refl;
  requested_by = refl;
  attempts =
      each_sorted e.attempts (merge_attempts row.attempts e.attempts row.attempts)
        (merge_stores row.attempts e.attempts row.attempts (λ a h. h) own);
}

-- Where `save` succeeds on an execution that the constructors accept, whose attempts have different
-- identifiers, `get` finds it from then on with the state, outcome, reason, explanation, times and
-- configuration digest that were saved, and with the identity, task, revision and request as they
-- were first stored. Every attempt that was saved is found under its identifier, with its finish
-- time, result and output. Every other row is as it was.
pub save_then_get :
    (id : String) (t : Table) (row e : Execution) {t' : Table}
    → IsRow id t row
    → e.execution_id ≡ id
    → All IsLoadable e.attempts
    → HaveOwnIds e.attempts
    → IsConsistent e
    → save e t ≡ ok t'
    → ((f : Execution) × (get id t' ≡ ok (some f)) × IsSaved row e f)
      × ((j : String) → j ≢ id → find j t' ≡ find j t)
save_then_get id t row e {t'} h i l own c s = (
  (
    reloaded (saved_row row e),
    get-reloaded id t' (saved_row row e) (save-IsRow id t row e h i l c s),
    saved_row-IsSaved row e own,
  ),
  λ j n. save-other j t e (λ q. n (sym q ∙ i)) s,
)
