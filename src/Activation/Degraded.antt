-- ===== src/Activation/Degraded.antt =====
-- An activation while the control plane is away, and what reconciliation makes of it.
use task_control.Activation.Journal.{JournalEntry, explanation_for}
use task_control.Activation.Service.{
  journalled_result, unrecorded_result, executes_without_control_state, secrets_refusal,
  exit_declined, ActivationResult, InstalledRevision, Site, Host, continue_with_local_journal,
  requires_unresolvable_secrets, refusal, declined, run_locally, appended, write_entry,
  run_and_journal, activate_degraded, activate,
}
use task_control.Errors.{Exception, Result, ok, raise, is_infrastructure_error}
use task_control.Execution.Record.{Execution, TriggerSource}
use task_control.Execution.Vocabulary.{finished}
use task_control.Prelude.{
  Bool, not, ◌||◌, ◌≢◌, Bool-cases, inl, inr, suc, String, ◌≡◌, refl, ap, sym, ◌∙◌, true, false,
  none, some, [], arith,
}
use mathlib.Core.Path.{subst}
use task_control.Runtime.World.{World, Executor}

-- One process was started, and neither the executions nor the overlap lock were touched.
pub record RanOnce {L : Type 0} (before after : World L) : Type 0 where
  pub once : after.runs ≡ suc before.runs
  pub same_executions : after.executions ≡ before.executions
  pub same_lock : after.lock_state ≡ before.lock_state

module _ {L J : Type 0} (site : Site L J) where
  world-appended :
      (entry : JournalEntry) (w : World L) (p : Result (Unit {0}) × J)
      → (appended site entry w p).1.world ≡ w
  world-appended entry w (ok tt, j) = refl
  world-appended entry w (raise e, j) = refl

  world-write_entry :
      (j : J) (p : Result JournalEntry × World L) → (write_entry site j p).1.world ≡ p.1
  world-write_entry j (raise e, w) = refl
  world-write_entry j (ok entry, w) = world-appended entry w (site.append entry j)

  run_locally-RanOnce :
      (installed : InstalledRevision) (t : TriggerSource) (w : World L) (executor : Executor)
      → site.env.executors installed.action.executor_type ≡ some executor
      → RanOnce w (run_locally site installed t w).1
  unfolding run_locally
  run_locally-RanOnce installed t w executor known = ground (arith, known)

-- The work requires the control plane's record, or a secret that only the control plane has.
unfoldable pub is_refused : InstalledRevision → Bool
is_refused installed =
    not (executes_without_control_state installed.activation_policy)
    || requires_unresolvable_secrets installed

-- No exit code of a run is the one of a refusal.
appended_ran :
    {L J : Type 0} (site : Site L J) (entry : JournalEntry) (w : World L)
    (p : Result (Unit {0}) × J) (r : ActivationResult)
    → (appended site entry w p).0 ≡ ok r
    → r.exit_code ≢ exit_declined
unfolding journalled_result unrecorded_result
appended_ran site entry w (ok tt, j) r e code = ground (arith, e, code)
appended_ran site entry w (raise x, j) r e code = ground (arith, e, code)

write_entry_ran :
    {L J : Type 0} (site : Site L J) (j : J) (p : Result JournalEntry × World L)
    (r : ActivationResult)
    → (write_entry site j p).0 ≡ ok r
    → r.exit_code ≢ exit_declined
write_entry_ran site j (raise x, w) r e code = cc
write_entry_ran site j (ok entry, w) r e code =
    appended_ran site entry w (site.append entry j) r e code

module _ {L J : Type 0} (site : Site L J) (slug : String) (t : TriggerSource) (h : Host L J)
    (installed : InstalledRevision) (e : Exception) (loaded : site.load slug ≡ ok installed)
    (away : site.runtime_factory ≡ raise e) (caught : is_infrastructure_error e ≡ true) where
  activate-away : activate site slug t h ≡ activate_degraded site installed t h
  unfolding activate
  activate-away = simp (loaded, away, caught)

  -- Where the control plane is away, the activation exits with 75 exactly where the work requires its
  -- record or needs a secret, whatever the executor and the journal do. It has then started nothing
  -- and left everything as it was: neither the journal nor the database says that the work was
  -- refused.
  pub declines_exact :
      (is_refused installed ≡ true
        → (r : ActivationResult) × (activate site slug t h ≡ (ok r, h))
          × (r.exit_code ≡ exit_declined)
          × (r.outcome ≡ none))
      × ((r : ActivationResult)
          → (activate site slug t h).0 ≡ ok r
          → r.exit_code ≡ exit_declined
          → is_refused installed ≡ true)
  unfolding activate_degraded run_and_journal is_refused
  declines_exact = (
    λ refused. elim (Bool-cases (executes_without_control_state installed.activation_policy)) [
      | inr strict ↦ (declined (refusal installed), activate-away ∙ simp strict, refl, refl)
      | inl lenient ↦
          let secret : requires_unresolvable_secrets installed ≡ true =
            ground (arith, refused, lenient) in
          (declined (secrets_refusal installed), activate-away ∙ simp (lenient, secret), refl, refl)
    ],
    λ r e code. elim (Bool-cases (is_refused installed)) [
      | inl refused ↦ refused
      | inr free ↦
          let lenient : executes_without_control_state installed.activation_policy ≡ true =
            ground (arith, free) in
          let no_secret : requires_unresolvable_secrets installed ≡ false = ground (arith, free) in
          let same : activate site slug t h
              ≡ write_entry site h.journal (run_locally site installed t h.world) =
            activate-away ∙ simp (lenient, no_secret) in
          absurd (
            write_entry_ran site h.journal (run_locally site installed t h.world) r
              (sym (ap (λ (p : Result ActivationResult × Host L J). p.0) same) ∙ e) code)
    ],
  )

  -- Where the control plane is away, the work may run without it, needs no secret and has an executor,
  -- exactly one process is started, whatever comes of it, and neither the executions nor the overlap
  -- lock are touched.
  pub degraded_runs_once :
      (executor : Executor)
      → installed.activation_policy ≡ continue_with_local_journal
      → requires_unresolvable_secrets installed ≡ false
      → site.env.executors installed.action.executor_type ≡ some executor
      → RanOnce h.world (activate site slug t h).1.world
  unfolding activate_degraded run_and_journal
  degraded_runs_once executor continues no_secrets known =
      let degraded : activate_degraded site installed t h ≡ run_and_journal site installed t h =
        simp (continues, no_secrets) in
      let same =
        ap (λ (p : Result ActivationResult × Host L J). p.1.world) (activate-away ∙ degraded)
        ∙ world-write_entry site h.journal (run_locally site installed t h.world) in
      subst (RanOnce h.world) (sym same)
        (run_locally-RanOnce site installed t h.world executor known)

-- the execution that an entry is made into
abbrev execution_of : JournalEntry → Execution
execution_of entry = record {
  execution_id = entry.execution_id;
  task_id = entry.task_id;
  revision_id = entry.revision_id;
  trigger_source = entry.trigger_source;
  requested_at = entry.started_at;
  state = finished;
  outcome = some entry.outcome;
  reason_code = entry.reason_code;
  explanation = explanation_for entry;
  attempts = [];
  started_at = some entry.started_at;
  finished_at = some entry.finished_at;
  correlation_id = none;
  idempotency_key = none;
  requested_by = none;
  configuration_digest = none;
}
