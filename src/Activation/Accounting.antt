-- ===== src/Activation/Accounting.antt =====
-- What an activation tells its caller, against what it did.
use task_control.Activation.Journal.{JournalEntry}
use task_control.Activation.Service.{
  ActivationResult, Site, Host, exit_success, exit_declined, exit_unrecorded,
}
use task_control.Errors.{Exception, Result, ok, raise}
use task_control.Execution.Vocabulary.{succeeded}
use task_control.Prelude.{◌≡◌, ◌≢◌, ◌↔◌, ◌⊎◌, true, false, none, some, List, [], ◌∷◌, ◌++◌}
use task_control.Runtime.World.{World}

abbrev pub Entries : Type 0
Entries = List JournalEntry

-- The journal's promise: an entry is added at the end, or the call raises and nothing is added.
abbrev pub AppendsOnly : {L : Type 0} → Site L Entries → Type 0
AppendsOnly site =
    (entry : JournalEntry) (entries : Entries)
    → (site.append entry entries ≡ (ok tt, entries ++ entry ∷ []))
      ⊎ ((e : Exception) × (site.append entry entries ≡ (raise e, entries)))

-- A result against the journal before and behind it.
pub record IsAccounted (before after : Entries) (r : ActivationResult) : Type 0 where
  pub success :
      (r.exit_code ≡ exit_success) ↔ ((r.outcome ≡ some succeeded) × (r.degraded ≡ r.journalled))
  pub nothing_told : (r.exit_code ≡ exit_declined) ↔ (r.outcome ≡ none)
  pub unrecorded :
      (r.exit_code ≡ exit_unrecorded)
      ↔ ((r.outcome ≢ none) × (r.degraded ≡ true) × (r.journalled ≡ false))
  pub unwritten : r.journalled ≡ false → after ≡ before
  pub written :
      r.journalled ≡ true
      → (entry : JournalEntry) × (after ≡ before ++ entry ∷ []) × (r.outcome ≡ some entry.outcome)

module _ {L : Type 0} (site : Site L Entries) (appends : AppendsOnly site) where
  -- Every result that a call returns is accounted for.
  record Accounts (before : Entries) (p : Result ActivationResult × Host L Entries) : Type 0 where
    pub accounted : (r : ActivationResult) → p.0 ≡ ok r → IsAccounted before p.1.journal r
