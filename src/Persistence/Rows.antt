-- ===== src/Persistence/Rows.antt =====
-- The row of one execution through `get` and `save`
-- (src/taskcontrol/adapters/persistence/repositories.py).
use mathlib.Core.Path.{subst}
use task_control.Errors.{ok}
use task_control.Execution.Invariant.{IsConsistent, validate_complete}
use task_control.Execution.Loading.{IsLoadable}
use task_control.Execution.Record.{Execution}
use task_control.Persistence.Attempts.{load_attempts-ok, All-sort, All-merge, has_duplicates-reload}
use task_control.Persistence.Executions.{
  Table, find, put, get, load, save, saved_row, sort_by_number, has_duplicates, merge_attempts,
}
use task_control.Prelude.{
  String, ◌≡◌, refl, sym, ap, ◌∙◌, false, some, [], ◌∷◌, arith, All, eq_iff, eq_refl, Option-cases,
  inl, inr,
}

-- What a row that values were saved to has: it can be loaded, and violates no constraint.
pub record IsSound (row : Execution) : Type 0 where
  pub loadable : All IsLoadable row.attempts
  pub distinct : has_duplicates row.attempts ≡ false
  pub consistent : IsConsistent row

pub record IsRow (id : String) (t : Table) (row : Execution) : Type 0 where
  pub found : find id t ≡ some row
  pub sound : IsSound row

pub find_id :
    (id : String) (t : Table) {row : Execution} → find id t ≡ some row → row.execution_id ≡ id
unfolding find
find_id id [] h = cc
find_id id (r ∷ t) {row} h = ground (arith, eq_iff r.execution_id id, find_id id t {row = row})

find-put_own :
    (row' : Execution) (t : Table) {row : Execution}
    → find row'.execution_id t ≡ some row
    → find row'.execution_id (put row' t) ≡ some row'
unfolding find put
find-put_own row' [] h = cc
find-put_own row' (r ∷ t) {row} h =
    ground (arith, eq_refl row'.execution_id, find-put_own row' t {row = row})

pub find-put :
    (id : String) (row' : Execution) (t : Table) {row : Execution}
    → row'.execution_id ≡ id
    → find id t ≡ some row
    → find id (put row' t) ≡ some row'
find-put id row' t {row} e h =
    subst (λ i. find i (put row' t) ≡ some row') e
      (find-put_own row' t {row = row} (subst (λ i. find i t ≡ some row) (sym e) h))

find-put_other :
    (j : String) (row' : Execution) (t : Table)
    → (row'.execution_id ≡ j → ⊥)
    → find j (put row' t) ≡ find j t
unfolding find put
find-put_other j row' [] n = refl
find-put_other j row' (r ∷ t) n = ground (
  arith,
  eq_iff r.execution_id row'.execution_id,
  eq_iff r.execution_id j,
  find-put_other j row' t n,
)

abbrev pub reloaded : Execution → Execution
reloaded row = record row { attempts = sort_by_number row.attempts }

pub load-reloaded : (row : Execution) → IsSound row → load row ≡ ok (reloaded row)
unfolding load
load-reloaded row h = ground (
  arith,
  load_attempts-ok (sort_by_number row.attempts) (All-sort IsLoadable row.attempts h.loadable),
  validate_complete (reloaded row) (record {
    outcome_when_finished = h.consistent.outcome_when_finished;
    explained = h.consistent.explained;
    explanation_fits = h.consistent.explanation_fits;
  }),
)

pub get-reloaded :
    (id : String) (t : Table) (row : Execution)
    → IsRow id t row
    → get id t ≡ ok (some (reloaded row))
unfolding get
get-reloaded id t row h = ground (arith, h.found, load-reloaded row h.sound)

saved_row-IsSound :
    (row e : Execution)
    → IsSound row
    → All IsLoadable e.attempts
    → IsConsistent e
    → has_duplicates (saved_row row e).attempts ≡ false
    → IsSound (saved_row row e)
saved_row-IsSound row e h l c d = record {
  loadable = All-merge row.attempts e.attempts row.attempts l h.loadable;
  distinct = d;
  consistent = record {
    outcome_when_finished = c.outcome_when_finished;
    explained = c.explained;
    explanation_fits = c.explanation_fits;
  };
}

-- Where `save` succeeds, the row is sound and is the one that was saved.
pub save-IsRow :
    (id : String) (t : Table) (row e : Execution) {t' : Table}
    → IsRow id t row
    → e.execution_id ≡ id
    → All IsLoadable e.attempts
    → IsConsistent e
    → save e t ≡ ok t'
    → IsRow id t' (saved_row row e)
unfolding save
save-IsRow id t row e {t'} h i l c s =
    let same = subst (λ n. find n t ≡ some row) (sym i) h.found in
    let d : has_duplicates (saved_row row e).attempts ≡ false = ground arith in
    let p : put (saved_row row e) t ≡ t' = ground arith in
    record {
      found =
          subst (λ u. find id u ≡ some (saved_row row e)) p
            (find-put id (saved_row row e) t {row = row} (find_id id t h.found) h.found);
      sound = saved_row-IsSound row e h.sound l c d;
    }

-- An execution that was loaded, and changed in other fields than its attempts, can be saved.
pub save-reloaded :
    (id : String) (t : Table) (row e : Execution)
    → IsRow id t row
    → e.execution_id ≡ id
    → e.attempts ≡ sort_by_number row.attempts
    → save e t ≡ ok (put (saved_row row e) t)
unfolding save
save-reloaded id t row e h i a =
    let same = subst (λ n. find n t ≡ some row) (sym i) h.found in
    let d : has_duplicates (saved_row row e).attempts ≡ false =
      ap (λ xs. has_duplicates (merge_attempts row.attempts xs row.attempts)) a
      ∙ has_duplicates-reload row.attempts
      ∙ h.sound.distinct in
    ground arith

-- `save` changes no row but the one that it names.
pub save-other :
    (j : String) (t : Table) (e : Execution) {t' : Table}
    → (e.execution_id ≡ j → ⊥)
    → save e t ≡ ok t'
    → find j t' ≡ find j t
unfolding save
save-other j t e {t'} n s = elim (Option-cases (find e.execution_id t)) [
  | inl h ↦ ground arith
  | inr (row, h) ↦
      let p : put (saved_row row e) t ≡ t' = ground arith in
      let i : (saved_row row e).execution_id ≡ e.execution_id = find_id e.execution_id t h in
      subst (λ u. find j u ≡ find j t) p (find-put_other j (saved_row row e) t (λ q. n (sym i ∙ q)))
]
