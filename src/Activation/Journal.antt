-- ===== src/Activation/Journal.antt =====
-- `JournalEntry` (src/taskcontrol/domain/execution/journal.py) and `ReconciliationService`
-- (src/taskcontrol/application/activation/reconciliation.py). Logging is left out. A journal is its
-- readable entries and the number of its other lines.
use task_control.Errors.{Result, ok, raise, ◌>>=◌}
use task_control.Execution.Reasons.{ReasonCode}
use task_control.Execution.Record.{Execution, TriggerSource, validate_execution}
use task_control.Execution.Results.{TerminationCause}
use task_control.Execution.Vocabulary.{ExecutionOutcome, finished, outcome_value}
use task_control.Persistence.Executions.{Table, get, add}
use task_control.Prelude.{
  ℕ, suc, String, Bool, true, false, Option, none, some, List, [], ◌∷◌, if◌then◌else◌, str_eq,
  concat,
}
use task_control.Runtime.World.{Fault, no_fault, before_commit, after_commit}
use task_control.Values.{Timestamp}

pub record JournalEntry : Type 0 where
  pub execution_id : String
  pub task_id : String
  pub slug : String
  pub revision_id : String
  pub content_digest : String
  pub trigger_source : TriggerSource
  pub started_at : Timestamp
  pub finished_at : Timestamp
  pub outcome : ExecutionOutcome
  pub reason_code : Option ReasonCode
  pub exit_code : Option ℕ
  pub signal_number : Option ℕ
  pub termination_cause : TerminationCause
  pub explanation : String

-- `_explanation_for`
unfoldable pub explanation_for : JournalEntry → String
explanation_for entry = concat (
    (if str_eq entry.explanation ""
      then concat ("Outcome " ∷ outcome_value entry.outcome ∷ "." ∷ [])
      else entry.explanation)
    ∷ " Reconciled from a local journal: this ran while TaskControl's control state was unreachable, so no attempt detail was captured."
    ∷ [])

-- `_execution_from`
unfoldable pub execution_from : JournalEntry → Result Execution
unfolding validate_execution
execution_from entry = validate_execution (record {
  execution_id = entry.execution_id;
  task_id = entry.task_id;
  revision_id = entry.revision_id;
  trigger_source = entry.trigger_source;
  requested_at = entry.started_at;
  state = finished;
  outcome = some entry.outcome;
  reason_code = entry.reason_code;
  explanation = explanation_for entry;
  attempts = [];
  started_at = some entry.started_at;
  finished_at = some entry.finished_at;
  correlation_id = none;
  idempotency_key = none;
  requested_by = none;
  configuration_digest = none;
})

-- the counts and the table of the loop of `reconcile`
pub record Ingest : Type 0 where
  pub ingested : ℕ
  pub already_known : ℕ
  pub executions : Table

-- one round of the loop
unfoldable pub ingest_entry : JournalEntry → Ingest → Result Ingest
unfolding execution_from
ingest_entry entry s = elim (get entry.execution_id s.executions) [
  | raise x ↦ raise x
  | ok (some _) ↦ ok (record s { already_known = suc s.already_known })
  | ok none ↦ (do
    e ← execution_from entry
    t ← add e s.executions
    ok (record s { ingested = suc s.ingested; executions = t }))
]

-- `for entry in entries`
unfoldable pub ingest : List JournalEntry → Ingest → Result Ingest
unfolding ingest_entry
ingest [] s = ok s
ingest (entry ∷ rest) s = do s' ← ingest_entry entry s; ingest rest s'

pub record Journal : Type 0 where
  pub entries : List JournalEntry
  pub unreadable_lines : ℕ

pub record ReconciliationReport : Type 0 where
  pub ingested : ℕ
  pub already_known : ℕ
  pub unreadable : ℕ
  pub cleared : Bool

-- what the commit makes of the loop's result; the journal is cleared behind it
abbrev pub finish_reconciliation :
    Journal → Table → Result Ingest → Fault → Result ReconciliationReport × Table × Journal
finish_reconciliation journal t (raise x) (before_commit y) = (raise y, t, journal)
finish_reconciliation journal t (ok s) (before_commit y) = (raise y, t, journal)
finish_reconciliation journal t (raise x) _ = (raise x, t, journal)
finish_reconciliation journal t (ok s) (after_commit y) = (raise y, s.executions, journal)
finish_reconciliation journal t (ok s) no_fault = (
  ok (record {
    ingested = s.ingested;
    already_known = s.already_known;
    unreadable = journal.unreadable_lines;
    cleared = true;
  }),
  s.executions,
  record { entries = []; unreadable_lines = 0 },
)

-- `reconcile`, whose transaction ends as the fault says
unfoldable pub reconcile : Fault → Journal → Table → Result ReconciliationReport × Table × Journal
unfolding ingest
reconcile fault journal t = elim journal.entries [
  | [] ↦ (
    ok (record {
      ingested = 0;
      already_known = 0;
      unreadable = journal.unreadable_lines;
      cleared = false;
    }),
    t,
    journal,
  )
  | _ ∷ _ ↦
      finish_reconciliation journal t
        (ingest journal.entries (record { ingested = 0; already_known = 0; executions = t })) fault
]
