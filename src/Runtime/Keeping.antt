-- ===== src/Runtime/Keeping.antt =====
-- What the actions of the runtime keep of the stored executions, as a triple on what an action
-- returns (src/taskcontrol/application/runtime/service.py).
use mathlib.Core.Path.{subst}
use task_control.Errors.{Result, ok, raise}
use task_control.Execution.Loading.{IsOwn}
use task_control.Execution.Record.{Execution}
use task_control.Execution.Vocabulary.{ExecutionState}
use task_control.Persistence.Executions.{Table, find, save, saved_row}
use task_control.Persistence.Rows.{IsRow, save-IsRow, save-other}
use task_control.Prelude.{suc, String, ◌≡◌, refl, sym, ap, ◌∙◌, some, arith}
use task_control.Runtime.Attempts.{stores, save_execution}
use task_control.Runtime.World.{
  Environment, World, Action, Fault, no_fault, before_commit, after_commit, commit, sequel,
}

-- The execution `id` has a row that can be loaded, and the rest of the table is that of `t0`.
pub record IsKept (id : String) (t0 t : Table) : Type 0 where
  pub row : Execution
  pub is_row : IsRow id t row
  pub others : (j : String) → (id ≡ j → ⊥) → find j t ≡ find j t0

pub record IsStored (id : String) (t : Table) (s : ExecutionState) : Type 0 where
  pub row : Execution
  pub found : find id t ≡ some row
  pub same_state : row.state ≡ s

pub save-IsKept :
    (id : String) (t0 t : Table) (e : Execution) {t' : Table}
    → IsKept id t0 t
    → IsOwn id e
    → save e t ≡ ok t'
    → IsKept id t0 t' × IsStored id t' e.state
save-IsKept id t0 t e {t'} k v s =
    let r = save-IsRow id t k.row e k.is_row v.same_id v.loadable v.consistent s in
    (
      record {
        row = saved_row k.row e;
        is_row = r;
        others = λ j n. save-other j t e (λ q. n (sym v.same_id ∙ q)) s ∙ k.others j n;
      },
      record { row = saved_row k.row e; found = r.found; same_state = refl },
    )

-- The action keeps the table, and what it returns satisfies `Q`.
pub record Holds {L A : Type 0} (id : String) (t0 : Table) (Q : A → World L → Type 0)
    (p : Result A × World L) : Type 0 where
  pub kept : IsKept id t0 p.1.executions
  pub value : (a : A) → p.0 ≡ ok a → Q a p.1

module _ {L : Type 0} (id : String) (t0 : Table) where
  pub sequel-Holds :
      {A B : Type 0} (Q : A → World L → Type 0) {R : B → World L → Type 0} (k : A → Action L B)
      (p : Result A × World L)
      → Holds id t0 Q p
      → ((a : A) (w : World L) → IsKept id t0 w.executions → Q a w → Holds id t0 R (k a w))
      → Holds id t0 R (sequel k p)
  sequel-Holds Q k (ok a, w) h f = f a w h.kept (h.value a refl)
  sequel-Holds Q k (raise x, w) h f = record { kept = h.kept; value = λ a q. cc }

  -- a call that changes nothing but the counters
  pub lift-Holds :
      {A : Type 0} (Q : A → World L → Type 0) (r : Result A) (w : World L)
      → IsKept id t0 w.executions
      → ((a : A) → r ≡ ok a → Q a w)
      → Holds id t0 Q (r, w)
  lift-Holds Q r w k f = record { kept = k; value = f }

  commit-Holds :
      (env : Environment L) (Q : World L → Type 0) (w : World L) (r : Result Table) (x : Fault)
      → IsKept id t0 w.executions
      → ((t : Table) → r ≡ ok t → IsKept id t0 t × Q (record w { executions = t }))
      → Holds id t0 (λ _. Q) (commit env w (stores r) x)
  commit-Holds env Q w (ok t) no_fault k f = record {
    kept = (f t refl).0;
    value = λ _ _. (f t refl).1;
  }
  commit-Holds env Q w (ok t) (before_commit x) k f = record { kept = k; value = λ a q. cc }
  commit-Holds env Q w (ok t) (after_commit x) k f = record {
    kept = (f t refl).0;
    value = λ a q. cc;
  }
  commit-Holds env Q w (raise e) no_fault k f = record { kept = k; value = λ a q. cc }
  commit-Holds env Q w (raise e) (before_commit x) k f = record { kept = k; value = λ a q. cc }
  commit-Holds env Q w (raise e) (after_commit x) k f = record { kept = k; value = λ a q. cc }

  -- `_save` of one's own execution
  pub save_execution-Holds :
      (env : Environment L) (e : Execution) (w : World L)
      → IsKept id t0 w.executions
      → IsOwn id e
      → Holds id t0 (λ e' w'. (e' ≡ e) × IsStored id w'.executions e.state) (save_execution env e w)
  unfolding save_execution
  save_execution-Holds env e w k v =
      sequel-Holds (λ _ w'. IsStored id w'.executions e.state) (λ _ w'. (ok e, w'))
        (commit env (record w { transactions = suc w.transactions }) (stores (save e w.executions))
          (env.fault w.transactions))
        (commit-Holds env (λ w'. IsStored id w'.executions e.state)
          (record w { transactions = suc w.transactions }) (save e w.executions)
          (env.fault w.transactions) k (λ t s. save-IsKept id t0 w.executions e k v s))
        (λ _ w' k' q. record { kept = k'; value = λ a h. (ground arith, q) })

  pub Holds-map :
      {A : Type 0} (Q : A → World L → Type 0) {R : A → World L → Type 0} {p : Result A × World L}
      → ((a : A) (w : World L) → Q a w → R a w)
      → Holds id t0 Q p
      → Holds id t0 R p
  Holds-map Q {p = p} f h = record { kept = h.kept; value = λ a q. f a p.1 (h.value a q) }

  -- a step that changes nothing but the counters, with what is known of its value
  pub step-Holds :
      {A B : Type 0} (Q : A → Type 0) {R : B → World L → Type 0} (r : Result A) (w : World L)
      (k : A → Action L B)
      → IsKept id t0 w.executions
      → ((a : A) → r ≡ ok a → Q a)
      → ((a : A) → Q a → Holds id t0 R (k a w))
      → Holds id t0 R (sequel k (r, w))
  step-Holds Q (ok a) w k h f g = g a (f a refl)
  step-Holds Q (raise x) w k h f g = record { kept = h; value = λ a q. cc }

  -- a step that saves one's own execution and goes on with it
  pub saved-Holds :
      {B : Type 0} (env : Environment L) {R : B → World L → Type 0} (e : Execution) (w : World L)
      {k : Execution → Action L B}
      → IsKept id t0 w.executions
      → IsOwn id e
      → ((e' : Execution) (w' : World L)
          → IsKept id t0 w'.executions
          → IsOwn id e'
          → IsStored id w'.executions e'.state
          → Holds id t0 R (k e' w'))
      → Holds id t0 R (sequel k (save_execution env e w))
  saved-Holds env e w {k = k} kept v g =
      sequel-Holds (λ e' w'. (e' ≡ e) × IsStored id w'.executions e.state) k
        (save_execution env e w) (save_execution-Holds env e w kept v)
        (λ e' w' k' q.
          g e' w' k' (subst (IsOwn id) (sym q.0) v)
            (subst (λ x. IsStored id w'.executions x.state) (sym q.0) q.1))

  pub return-Holds :
      {A : Type 0} (Q : A → World L → Type 0) (a : A) (w : World L)
      → IsKept id t0 w.executions
      → Q a w
      → Holds id t0 Q (ok a, w)
  return-Holds Q a w k q = record {
    kept = k;
    value = λ b p. subst (λ x. Q x w) (ap (λ r. elim r [ ok x ↦ x | raise _ ↦ a ]) p) q;
  }
