-- ===== src/Runtime/Ending.antt =====
-- `_force_terminal`, the `finally` and the handlers of `_execute`: what they leave of the execution's
-- row (src/taskcontrol/application/runtime/service.py).
use task_control.Errors.{ok}
use task_control.Execution.Loading.{IsOwn, finish-IsOwn}
use task_control.Execution.Loading.{IsLoadable}
use task_control.Execution.Record.{Execution, is_finished, finish, max_explanation_length}
use task_control.Persistence.Attempts.{All-sort}
use task_control.Execution.Vocabulary.{unknown, finished, is_terminal}
use task_control.Persistence.Executions.{Table, find, saved_row, put}
use task_control.Persistence.Rows.{IsRow, get-reloaded, reloaded, save-reloaded, find_id}
use task_control.Prelude.{
  String, ◌≡◌, refl, ap, ◌∙◌, true, false, none, some, inl, inr, ◌≤◌, len, leb→le, Bool-cases,
  arith,
}
use task_control.Runtime.Keeping.{IsKept, save-IsKept}
use task_control.Runtime.Running.{state-finish}
use task_control.Runtime.Service.{finish_current}
use task_control.Values.{Timestamp}

pub record IsEndedRow (id : String) (t : Table) : Type 0 where
  pub row : Execution
  pub found : find id t ≡ some row
  pub row_ended : is_finished row ≡ true

abbrev forced_explanation : String
forced_explanation =
    "The runtime exited without recording an outcome. This execution requires reconciliation."

reloaded-IsOwn :
    (id : String) (t : Table) (row : Execution) → IsRow id t row → IsOwn id (reloaded row)
reloaded-IsOwn id t row h = record {
  same_id = find_id id t h.found;
  loadable = All-sort IsLoadable row.attempts h.sound.loadable;
  consistent = record {
    outcome_when_finished = h.sound.consistent.outcome_when_finished;
    explained = h.sound.consistent.explained;
    explanation_fits = h.sound.consistent.explanation_fits;
  };
}

len-forced : len forced_explanation ≤ max_explanation_length
unfolding len
len-forced = leb→le (len forced_explanation) max_explanation_length refl

finish_unknown :
    (e : Execution) (now : Timestamp)
    → is_finished e ≡ false
    → (f : Execution) × (finish e unknown now none forced_explanation ≡ ok f)
      × (f.attempts ≡ e.attempts)
unfolding finish
finish_unknown e now d = (
  record e {
    state = finished;
    outcome = some unknown;
    reason_code = none;
    explanation = forced_explanation;
    finished_at = some now;
  },
  ground (arith, len-forced),
  refl,
)

-- What `_force_terminal` does to a table: the row is there and finished, and no other row is touched.
pub record IsForced (id : String) (t0 t : Table) : Type 0 where
  pub kept : IsKept id t0 t
  pub ended : IsEndedRow id t

-- Loading and finishing as unproven always works.
pub finish_current-IsForced :
    (id : String) (t0 t : Table) (now : Timestamp)
    → IsKept id t0 t
    → (t' : Table) × (finish_current id now t ≡ ok (tt, t')) × IsForced id t0 t'
unfolding finish_current
finish_current-IsForced id t0 t now k =
    let g = get-reloaded id t k.row k.is_row in
    elim (Bool-cases (is_finished k.row)) [
      | inl d ↦ (
        t,
        ground arith,
        record { kept = k; ended = record { row = k.row; found = k.is_row.found; row_ended = d } },
      )
      | inr d ↦
          let (f, e, a) = finish_unknown (reloaded k.row) now d in
          let own =
            finish-IsOwn id (reloaded k.row) unknown now none forced_explanation
              (reloaded-IsOwn id t k.row k.is_row) e in
          let s = save-reloaded id t k.row f k.is_row own.same_id a in
          let q = save-IsKept id t0 t f k own s in
          (
            put (saved_row k.row f) t,
            ground arith,
            record {
              kept = q.0;
              ended = record {
                row = q.1.row;
                found = q.1.found;
                row_ended =
                    ap is_terminal q.1.same_state
                    ∙ state-finish (reloaded k.row) unknown now none forced_explanation e;
              };
            },
          )
    ]
