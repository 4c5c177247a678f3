-- ===== src/Activation/Origins.antt =====
-- Where the outcome that an activation tells comes from
-- (src/taskcontrol/application/activation/service.py).
use task_control.Activation.Journal.{JournalEntry}
use task_control.Activation.Service.{
  ActivationResult, InstalledRevision, Site, Host, recorded_result, journalled_result,
  unrecorded_result, entry_for, run_request, local_request, declined, is_transient, run_locally,
  appended, write_entry, run_and_journal, activate_degraded, run_recorded, after_run,
  activate_installed, activate, executes_without_control_state, requires_unresolvable_secrets,
}
use task_control.Errors.{Exception, Result, ok, raise, is_infrastructure_error}
use task_control.Execution.Record.{TriggerSource}
use task_control.Execution.Vocabulary.{ExecutionOutcome}
use task_control.Policies.Classification.{classify_process_result}
use task_control.Prelude.{
  ℕ, String, ◌≡◌, ◌⊎◌, inl, inr, refl, sym, ap, ◌∙◌, true, false, not, Option, none, some, arith,
  if_elim, Bool-cases, Option-cases,
}
use task_control.Runtime.Service.{RunResult, run}
use task_control.Runtime.World.{World, Executor, ExecutionReport}

-- What stands behind a result: nothing that ran without the control plane, a recorded run of the runtime,
-- or a process that was run without it, whose report was classified.
pub data OutcomeFrom {L J : Type 0} (site : Site L J) (slug : String) (t : TriggerSource)
    (h : Host L J) (r : ActivationResult) : Type 0 where
  refused : r.degraded ≡ true → r.outcome ≡ none → OutcomeFrom site slug t h r
  recorded :
      (installed : InstalledRevision) (result : RunResult)
      → site.load slug ≡ ok installed
      → (run site.env (run_request installed t) h.world).0 ≡ ok result
      → r.degraded ≡ false
      → r.outcome ≡ result.execution.outcome
      → OutcomeFrom site slug t h r
  ran_locally :
      (installed : InstalledRevision) (executor : Executor) (n : ℕ) (report : ExecutionReport)
      → site.load slug ≡ ok installed
      → site.env.executors installed.action.executor_type ≡ some executor
      → executor (local_request installed) n ≡ ok report
      → r.degraded ≡ true
      → r.outcome ≡ some (classify_process_result report.result none none).outcome
      → OutcomeFrom site slug t h r

Result-cases :
    {A : Type 0} (r : Result A) → ((a : A) × (r ≡ ok a)) ⊎ ((e : Exception) × (r ≡ raise e))
Result-cases (ok a) = inl (a, refl)
Result-cases (raise e) = inr (e, refl)

module _ {L J : Type 0} (site : Site L J) (slug : String) (t : TriggerSource) (h : Host L J) where
  abbrev IsFounded : Result ActivationResult × Host L J → Type 0
  IsFounded p = (r : ActivationResult) → p.0 ≡ ok r → OutcomeFrom site slug t h r

  raised-IsFounded : (e : Exception) (k : Host L J) → IsFounded (raise e, k)
  raised-IsFounded e k r same = absurd (cc same)

  declined-IsFounded :
      (explanation : String) (k : Host L J) → IsFounded (ok (declined explanation), k)
  declined-IsFounded explanation k r same = refused (ground (arith, same)) (ground (arith, same))

  -- The entry is of a report that the executor gave.
  IsReported : InstalledRevision → JournalEntry → Type 0
  IsReported installed entry =
      (executor : Executor) × (n : ℕ) × (report : ExecutionReport) × (site.env.executors
          installed.action.executor_type
        ≡ some executor)
      × (executor (local_request installed) n ≡ ok report)
      × (entry.outcome ≡ (classify_process_result report.result none none).outcome)

  run_locally-IsReported :
      (installed : InstalledRevision) (w : World L) (entry : JournalEntry)
      → (run_locally site installed t w).0 ≡ ok entry
      → IsReported installed entry
  unfolding run_locally entry_for IsReported
  run_locally-IsReported installed w entry same =
      elim (Option-cases (site.env.executors installed.action.executor_type)) [
        | inl none_known ↦ absurd (ground (arith, none_known, same))
        | inr (executor, known) ↦ elim (Result-cases (executor (local_request installed) w.runs)) [
          | inr (e, failed) ↦ absurd (ground (arith, known, failed, same))
          | inl (report, reported) ↦
              (executor, w.runs, report, known, reported, ground (arith, known, reported, same))
        ]
      ]

  module _ (installed : InstalledRevision) (loaded : site.load slug ≡ ok installed) where
    local-OutcomeFrom :
        (entry : JournalEntry) (r : ActivationResult)
        → IsReported installed entry
        → r.degraded ≡ true
        → r.outcome ≡ some entry.outcome
        → OutcomeFrom site slug t h r
    unfolding IsReported
    local-OutcomeFrom entry r (executor, n, report, known, reported, same) degraded outcome =
        ran_locally installed executor n report loaded known reported degraded
          (outcome ∙ ap some same)

    appended-IsFounded :
        (entry : JournalEntry) (w : World L) (p : Result (Unit {0}) × J)
        → IsReported installed entry
        → IsFounded (appended site entry w p)
    unfolding journalled_result unrecorded_result
    appended-IsFounded entry w (ok tt, j) from r same =
        local-OutcomeFrom entry r from (ground (arith, same)) (ground (arith, same))
    appended-IsFounded entry w (raise e, j) from r same = elim (Bool-cases (is_transient e)) [
      | inl gone ↦
          local-OutcomeFrom entry r from (ground (arith, gone, same)) (ground (arith, gone, same))
      | inr serious ↦ absurd (ground (arith, serious, same))
    ]

    write_entry-IsFounded :
        (j : J) (p : Result JournalEntry × World L)
        → ((entry : JournalEntry) → p.0 ≡ ok entry → IsReported installed entry)
        → IsFounded (write_entry site j p)
    write_entry-IsFounded j (raise e, w) from =
        raised-IsFounded e (record { world = w; journal = j })
    write_entry-IsFounded j (ok entry, w) from =
        appended-IsFounded entry w (site.append entry j) (from entry refl)

    activate_degraded-IsFounded : (k : Host L J) → IsFounded (activate_degraded site installed t k)
    unfolding activate_degraded run_and_journal
    activate_degraded-IsFounded k =
        if_elim IsFounded (not (executes_without_control_state installed.activation_policy))
          (declined-IsFounded _ k)
          (if_elim IsFounded (requires_unresolvable_secrets installed) (declined-IsFounded _ k) (
            write_entry-IsFounded k.journal (run_locally site installed t k.world)
              (run_locally-IsReported installed k.world)))

    run_recorded-run :
        (result : RunResult)
        → (run_recorded site installed t h.world).0 ≡ ok result
        → (run site.env (run_request installed t) h.world).0 ≡ ok result
    run_recorded-run result same = elim (Result-cases site.runtime_factory) [
      | inl (_, built) ↦
          let runs : run_recorded site installed t h.world
              ≡ run site.env (run_request installed t) h.world =
            rw built refl in
          sym (ap (λ (p : Result RunResult × World L). p.0) runs) ∙ same
      | inr (e, away) ↦
          let fails : run_recorded site installed t h.world ≡ (raise e, h.world) = rw away refl in
          let differ = sym same ∙ ap (λ (p : Result RunResult × World L). p.0) fails in
          absurd (cc differ)
    ]

    recorded-IsFounded :
        (result : RunResult) (k : Host L J) (outcome : Option ExecutionOutcome)
        → result.execution.outcome ≡ outcome
        → (run_recorded site installed t h.world).0 ≡ ok result
        → IsFounded (recorded_result result, k)
    unfolding recorded_result
    recorded-IsFounded result k none e came r same = absurd (ground (arith, e, same))
    recorded-IsFounded result k (some o) e came r same =
        recorded installed result loaded (run_recorded-run result came) (ground (arith, e, same))
          (ground (arith, e, same))

    after_run-IsFounded :
        (p : Result RunResult × World L)
        → ((result : RunResult)
            → p.0 ≡ ok result
            → (run_recorded site installed t h.world).0 ≡ ok result)
        → IsFounded (after_run site installed t h.journal p)
    after_run-IsFounded (ok result, w) came =
        recorded-IsFounded result (record { world = w; journal = h.journal })
          result.execution.outcome refl (came result refl)
    after_run-IsFounded (raise e, w) came =
        if_elim IsFounded (is_infrastructure_error e)
          (activate_degraded-IsFounded (record { world = w; journal = h.journal }))
          (raised-IsFounded e (record { world = w; journal = h.journal }))

  installed-IsFounded :
      (found : Result InstalledRevision)
      → site.load slug ≡ found
      → IsFounded (activate_installed site t h found)
  installed-IsFounded (raise e) same = raised-IsFounded e h
  installed-IsFounded (ok installed) same =
      after_run-IsFounded installed same (run_recorded site installed t h.world) (λ _ came. came)

  pub activate-OutcomeFrom :
      (r : ActivationResult) → (activate site slug t h).0 ≡ ok r → OutcomeFrom site slug t h r
  unfolding activate
  activate-OutcomeFrom = installed-IsFounded (site.load slug) refl
