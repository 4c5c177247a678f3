-- ===== src/Tests/Activations.antt =====
-- One run that was journalled while the database was away, and the activation that journalled it.
use task_control.Activation.Journal.{
  JournalEntry, Ingest, Journal, ingest, explanation_for, reconcile,
}
use task_control.Activation.Replay.{IsKnown, start, empty_journal, reconciled_once}
use task_control.Activation.Accounting.{Entries}
use task_control.Activation.Degraded.{RanOnce, degraded_runs_once, declines_exact, is_refused}
use task_control.Activation.Service.{
  ActivationResult, exit_declined, requires_unresolvable_secrets, ActivationPolicy,
  require_control_state, continue_with_local_journal, InstalledRevision, Site, Host, activate,
  entry_for,
}
use task_control.Errors.{Exception, error, ok, raise, transient_infrastructure_failure}
use task_control.Execution.Record.{Execution, schedule}
use task_control.Execution.Results.{not_terminated}
use task_control.Execution.Vocabulary.{finished, succeeded}
use task_control.Persistence.Executions.{find, get, add}
use task_control.Prelude.{
  String, ◌≡◌, refl, true, none, some, [], ◌∷◌, ◌+◌, All, length, len, concat, Bool, ◌++◌,
}
use task_control.Runtime.World.{after_commit, no_fault}
use task_control.Tests.Runs.{site, start as idle, shell, clean_report, nightly}

abbrev journalled : JournalEntry
journalled = record {
  execution_id = "x7";
  task_id = "t1";
  slug = "backup";
  revision_id = "r1";
  content_digest = "sha256:0";
  trigger_source = schedule;
  started_at = 10;
  finished_at = 20;
  outcome = succeeded;
  reason_code = none;
  exit_code = some 0;
  signal_number = none;
  termination_cause = not_terminated;
  explanation = "";
}

abbrev reconciled : Execution
reconciled = record {
  execution_id = "x7";
  task_id = "t1";
  revision_id = "r1";
  trigger_source = schedule;
  requested_at = 10;
  state = finished;
  outcome = some succeeded;
  reason_code = none;
  explanation = explanation_for journalled;
  attempts = [];
  started_at = some 10;
  finished_at = some 20;
  correlation_id = none;
  idempotency_key = none;
  requested_by = none;
  configuration_digest = none;
}

abbrev after_ingest : Ingest
after_ingest = record { ingested = 1; already_known = 0; executions = reconciled ∷ [] }

ingested : ingest (journalled ∷ []) (start []) ≡ ok after_ingest
unfolding ingest get add find len concat explanation_for
ingested = refl

reconciled_once_example :
    let journal : Journal = record { entries = journalled ∷ []; unreadable_lines = 0 } in
    All (λ (x : JournalEntry). IsKnown (reconciled ∷ []) x.execution_id) (journalled ∷ [])
    × (1 + 0 ≡ length (journalled ∷ []))
    × ((id : String) → IsKnown [] id → IsKnown (reconciled ∷ []) id)
    × ((x : Exception)
        → reconcile (after_commit x) journal [] ≡ (raise x, reconciled ∷ [], journal))
    × (reconcile no_fault journal (reconciled ∷ []) ≡ (
      ok (record {
        ingested = 0;
        already_known = length (journalled ∷ []);
        unreadable = 0;
        cleared = true;
      }),
      reconciled ∷ [],
      empty_journal,
    ))
reconciled_once_example = reconciled_once journalled [] 0 [] ingested

abbrev installed_with : ActivationPolicy → InstalledRevision
installed_with policy = record {
  task_id = "t1";
  slug = "backup";
  revision_id = "r1";
  content_digest = "sha256:0";
  action = record { executor_type = "shell"; environment = [] };
  controls = nightly.controls;
  activation_policy = policy;
}

abbrev unreachable : Exception
unreachable = error transient_infrastructure_failure "database is locked"

abbrev away : ActivationPolicy → Site Bool Entries
away policy = record {
  env = site;
  load = λ _. ok (installed_with policy);
  append = λ entry entries. (ok tt, entries ++ entry ∷ []);
  runtime_factory = raise unreachable;
}

abbrev host : Host Bool Entries
host = record { world = idle; journal = [] }

declines_exact_example :
    (is_refused (installed_with require_control_state) ≡ true
      → (r : ActivationResult) × (activate (away require_control_state) "backup" schedule host
          ≡ (ok r, host))
        × (r.exit_code ≡ exit_declined)
        × (r.outcome ≡ none))
    × ((r : ActivationResult)
        → (activate (away require_control_state) "backup" schedule host).0 ≡ ok r
        → r.exit_code ≡ exit_declined
        → is_refused (installed_with require_control_state) ≡ true)
declines_exact_example =
    declines_exact (away require_control_state) "backup" schedule host
      (installed_with require_control_state) unreachable refl refl refl

degraded_runs_once_example :
    RanOnce host.world (activate (away continue_with_local_journal) "backup" schedule host).1.world
unfolding requires_unresolvable_secrets
degraded_runs_once_example =
    degraded_runs_once (away continue_with_local_journal) "backup" schedule host
      (installed_with continue_with_local_journal) unreachable refl refl refl shell refl refl refl

abbrev first_entry : JournalEntry
first_entry = entry_for (installed_with continue_with_local_journal) schedule "c1" 0 1 clean_report
