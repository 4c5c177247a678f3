-- ===== src/Activation/Replay.antt =====
-- Reconciling a journal, once and again
-- (src/taskcontrol/application/activation/reconciliation.py).
use mathlib.Core.Path.{subst}
use task_control.Activation.Journal.{
  JournalEntry, Ingest, execution_from, ingest_entry, ingest, Journal, reconcile,
  finish_reconciliation,
}
use task_control.Errors.{Exception, Result, ok, raise, Result-cases, ◌>>=◌}
use task_control.Execution.Record.{Execution}
use task_control.Persistence.Adding.{add-IsAdded}
use task_control.Persistence.Executions.{Table, find, get, load, add, has_duplicates}
use task_control.Persistence.Rows.{IsSound, get-reloaded, reloaded}
use task_control.Runtime.World.{after_commit, no_fault}
use task_control.Prelude.{
  ℕ, suc, ◌+◌, String, ◌≡◌, ap, ◌∙◌, true, Option, none, some, List, [], ◌∷◌, arith, Option-cases,
  inl, inr, length, All,
}

-- `get` answers an execution
abbrev pub IsKnown : Table → String → Type 0
IsKnown t id = (e : Execution) × (get id t ≡ ok (some e))

get-same : (id : String) (t t' : Table) → find id t' ≡ find id t → get id t' ≡ get id t
unfolding get
get-same id t t' h =
    ap
      (λ o. elim o as (λ _. Result (Option Execution)) [
        | none ↦ ok none
        | some row ↦ (do e ← load row; ok (some e))
      ])
      h

get-absent : (id : String) (t : Table) → find id t ≡ none → get id t ≡ ok none
unfolding get
get-absent id t h = ground arith

execution_from-IsSound :
    (entry : JournalEntry) {e : Execution}
    → execution_from entry ≡ ok e
    → (e.execution_id ≡ entry.execution_id) × IsSound e
unfolding execution_from has_duplicates
execution_from-IsSound entry {e} h = ground arith

-- Adding a row leaves known what was known.
add-IsKnown :
    (e : Execution) (t : Table) (id : String) {t' : Table}
    → add e t ≡ ok t'
    → IsKnown t id
    → IsKnown t' id
add-IsKnown e t id {t'} h (x, k) =
    let a = add-IsAdded e t h in
    (
      x,
      get-same id t t' (
            a.others id (λ p.
              let gone : get id t ≡ ok none =
                get-absent id t (subst (λ i. find i t ≡ none) p a.absent) in
              ground arith))
          ∙ k,
    )

pub record Keeps (s s' : Ingest) : Type 0 where
  pub kept : (id : String) → IsKnown s.executions id → IsKnown s'.executions id
  pub counted : s'.ingested + s'.already_known ≡ suc (s.ingested + s.already_known)

ingest_new :
    (entry : JournalEntry) (s s' : Ingest)
    → get entry.execution_id s.executions ≡ ok none
    → ingest_entry entry s ≡ ok s'
    → Keeps s s' × IsKnown s'.executions entry.execution_id
unfolding ingest_entry
ingest_new entry s s' g h =
    Result-cases (Keeps s s' × IsKnown s'.executions entry.execution_id) (execution_from entry)
      (λ e f.
        Result-cases (Keeps s s' × IsKnown s'.executions entry.execution_id) (add e s.executions)
          (λ t a.
            let p : record s { ingested = suc s.ingested; executions = t } ≡ s' = ground arith in
            let (same, sound) = execution_from-IsSound entry f in
            let row = subst (λ i. find i t ≡ some e) same (add-IsAdded e s.executions a).found in
            subst (λ (u : Ingest). Keeps s u × IsKnown u.executions entry.execution_id) p
              (
                record { kept = λ id y. add-IsKnown e s.executions id a y; counted = omega arith },
                (
                  reloaded e,
                  get-reloaded entry.execution_id t e (record { found = row; sound = sound }),
                ),
              ))
          (λ x a. ground arith))
      (λ x f. ground arith)

ingest_entry-Keeps :
    (entry : JournalEntry) (s : Ingest) {s' : Ingest}
    → ingest_entry entry s ≡ ok s'
    → Keeps s s' × IsKnown s'.executions entry.execution_id
unfolding ingest_entry
ingest_entry-Keeps entry s {s'} h =
    Result-cases (Keeps s s' × IsKnown s'.executions entry.execution_id)
      (get entry.execution_id s.executions)
      (λ found g. elim (Option-cases found) [
        | inr (x, k) ↦
            let p : record s { already_known = suc s.already_known } ≡ s' = ground arith in
            subst (λ (u : Ingest). Keeps s u × IsKnown u.executions entry.execution_id) p
              (record { kept = λ _ y. y; counted = omega arith }, (x, g ∙ ap ok k))
        | inl n ↦ ingest_new entry s s' (g ∙ ap ok n) h
      ])
      (λ x g. ground arith)

ingest-Keeps :
    (entries : List JournalEntry) (s : Ingest) {s' : Ingest}
    → ingest entries s ≡ ok s'
    → ((id : String) → IsKnown s.executions id → IsKnown s'.executions id)
      × All (λ (x : JournalEntry). IsKnown s'.executions x.execution_id) entries
      × (s'.ingested + s'.already_known ≡ length entries + (s.ingested + s.already_known))
unfolding ingest
ingest-Keeps [] s {s'} h =
    let p : s ≡ s' = ground arith in
    subst
      (λ (u : Ingest).
        ((id : String) → IsKnown s.executions id → IsKnown u.executions id)
        × Unit {0}
        × (u.ingested + u.already_known ≡ 0 + (s.ingested + s.already_known)))
      p (λ id k. k, tt, omega arith)
ingest-Keeps (entry ∷ rest) s {s'} h =
    Result-cases
      (((id : String) → IsKnown s.executions id → IsKnown s'.executions id)
        × All (λ (x : JournalEntry). IsKnown s'.executions x.execution_id) (entry ∷ rest)
        × (s'.ingested + s'.already_known ≡ length (entry ∷ rest) + (s.ingested + s.already_known)))
      (ingest_entry entry s)
      (λ s1 e.
        let (first, known) = ingest_entry-Keeps entry s e in
        let later : ingest rest s1 ≡ ok s' = ground arith in
        let (kept, all, counted) = ingest-Keeps rest s1 later in
        (
          λ id k. kept id (first.kept id k),
          (kept entry.execution_id known, all),
          omega (arith, first.counted, counted),
        ))
      (λ x e. ground arith)

-- Where every entry is known, the loop only counts.
ingest-known :
    (entries : List JournalEntry) (s : Ingest)
    → All (λ (x : JournalEntry). IsKnown s.executions x.execution_id) entries
    → ingest entries s ≡ ok (record s { already_known = length entries + s.already_known })
unfolding ingest ingest_entry
ingest-known [] s h = ground arith
ingest-known (entry ∷ rest) s h =
    let s1 : Ingest = record s { already_known = suc s.already_known } in
    ground (arith, h.0.1, ingest-known rest s1 h.1)

abbrev pub start : Table → Ingest
start t = record { ingested = 0; already_known = 0; executions = t }

abbrev pub empty_journal : Journal
empty_journal = record { entries = []; unreadable_lines = 0 }

-- Where every entry of a journal can be recorded: each one is counted once, and can be read as an
-- execution from then on, as can whatever could be read before. If the reconciliation is
-- interrupted between its commit and the clearing of the journal, then it can be done again: that
-- records nothing more, counts every entry as known, and clears the journal.
pub reconciled_once :
    (entry : JournalEntry) (rest : List JournalEntry) (lines : ℕ) (t : Table) {s : Ingest}
    → ingest (entry ∷ rest) (start t) ≡ ok s
    → let journal : Journal = record { entries = entry ∷ rest; unreadable_lines = lines } in
      All (λ (x : JournalEntry). IsKnown s.executions x.execution_id) (entry ∷ rest)
      × (s.ingested + s.already_known ≡ length (entry ∷ rest))
      × ((id : String) → IsKnown t id → IsKnown s.executions id)
      × ((x : Exception) → reconcile (after_commit x) journal t ≡ (raise x, s.executions, journal))
      × (reconcile no_fault journal s.executions ≡ (
        ok (record {
          ingested = 0;
          already_known = length (entry ∷ rest);
          unreadable = lines;
          cleared = true;
        }),
        s.executions,
        empty_journal,
      ))
unfolding reconcile
reconciled_once entry rest lines t {s} h =
    let journal : Journal = record { entries = entry ∷ rest; unreadable_lines = lines } in
    let (kept, all, counted) = ingest-Keeps (entry ∷ rest) (start t) h in
    let no_more : length (entry ∷ rest) + 0 ≡ length (entry ∷ rest) = omega arith in
    (
      all,
      omega (arith, counted),
      kept,
      λ x. ap (λ r. finish_reconciliation journal t r (after_commit x)) h,
      ap (λ r. finish_reconciliation journal s.executions r no_fault)
          (ingest-known (entry ∷ rest) (start s.executions) all
            ∙ ap (λ n. ok (record (start s.executions) { already_known = n })) no_more),
    )
