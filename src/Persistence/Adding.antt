-- ===== src/Persistence/Adding.antt =====
-- The row that `add` stores (src/taskcontrol/adapters/persistence/repositories.py).
use mathlib.Core.Path.{subst}
use task_control.Errors.{ok}
use task_control.Execution.Record.{Execution}
use task_control.Persistence.Executions.{Table, find, add, clashes}
use task_control.Prelude.{
  String, ◌≡◌, refl, false, none, some, [], ◌∷◌, ◌++◌, arith, any, eq_iff, eq_refl, Bool-cases, inl,
  inr,
}

find-no_clash :
    (e : Execution) (t : Table) → any (clashes e) t ≡ false → find e.execution_id t ≡ none
unfolding find clashes
find-no_clash e [] h = refl
find-no_clash e (r ∷ t) h = ground (arith, find-no_clash e t)

find-append_own :
    (e : Execution) (t : Table)
    → find e.execution_id t ≡ none
    → find e.execution_id (t ++ e ∷ []) ≡ some e
unfolding find
find-append_own e [] h = ground (arith, eq_refl e.execution_id)
find-append_own e (r ∷ t) h = ground (arith, find-append_own e t)

find-append_other :
    (j : String) (e : Execution) (t : Table)
    → (e.execution_id ≡ j → ⊥)
    → find j (t ++ e ∷ []) ≡ find j t
unfolding find
find-append_other j e [] n = ground (arith, eq_iff e.execution_id j)
find-append_other j e (r ∷ t) n = ground (arith, find-append_other j e t n)

-- what a successful `add` has done
pub record IsAdded (e : Execution) (t t' : Table) : Type 0 where
  pub absent : find e.execution_id t ≡ none
  pub found : find e.execution_id t' ≡ some e
  pub others : (j : String) → (e.execution_id ≡ j → ⊥) → find j t' ≡ find j t

pub add-IsAdded : (e : Execution) (t : Table) {t' : Table} → add e t ≡ ok t' → IsAdded e t t'
unfolding add
add-IsAdded e t {t'} h = elim (Bool-cases (any (clashes e) t)) [
  | inl c ↦ ground arith
  | inr c ↦
      let a = find-no_clash e t c in
      let p : t ++ e ∷ [] ≡ t' = ground arith in
      subst (IsAdded e t) p (record {
        absent = a;
        found = find-append_own e t a;
        others = λ j n. find-append_other j e t n;
      })
]
