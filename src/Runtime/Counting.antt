-- ===== src/Runtime/Counting.antt =====
-- How many processes the actions of a run start, as a triple on what an action returns
-- (src/taskcontrol/application/runtime/service.py).
use mathlib.Core.Path.{subst}
use task_control.Errors.{Result, ok, raise}
use task_control.Execution.Attempt.{ExecutionAttempt}
use task_control.Execution.Record.{
  Execution, attempt_count, begin_attempt, record_attempt_result, finish,
}
use task_control.Execution.Reasons.{ReasonCode}
use task_control.Execution.Vocabulary.{ExecutionOutcome}
use task_control.Persistence.Executions.{Table, save}
use task_control.Prelude.{
  ℕ, suc, ◌+◌, ◌≤◌, String, ◌≡◌, refl, ap, Option, [], ◌∷◌, arith, length-append,
  length-replace_last, get_last?, Option-cases, inl, inr,
}
use task_control.Runtime.Attempts.{stores, save_execution, finish_execution}
use task_control.Runtime.World.{
  Environment, World, Action, Fault, no_fault, before_commit, after_commit, commit, sequel,
}

-- At most `n` processes have been run in all, and what is returned satisfies `Q`.
pub record Counts {L A : Type 0} (n : ℕ) (Q : A → Type 0) (p : Result A × World L) : Type 0 where
  pub runs : p.1.runs ≤ n
  pub value : (a : A) → p.0 ≡ ok a → Q a

pub return-Counts :
    {L A : Type 0} (n : ℕ) (Q : A → Type 0) (a : A) (w : World L)
    → w.runs ≤ n
    → Q a
    → Counts n Q (ok a, w)
return-Counts n Q a w l q = record {
  runs = l;
  value = λ b p. subst Q (ap (λ r. elim r [ ok x ↦ x | raise _ ↦ a ]) p) q;
}

pub sequel-Counts :
    {L A B : Type 0} (m n : ℕ) (Q : A → Type 0) {R : B → Type 0} (k : A → Action L B)
    (p : Result A × World L)
    → m ≤ n
    → Counts m Q p
    → ((a : A) (w : World L) → w.runs ≤ m → Q a → Counts n R (k a w))
    → Counts n R (sequel k p)
sequel-Counts m n Q k (ok a, w) l h f = f a w h.runs (h.value a refl)
sequel-Counts m n Q k (raise x, w) l h f = record {
  runs = omega (arith, h.runs);
  value = λ a q. cc;
}

-- a step that runs no process
pub step-Counts :
    {L A B : Type 0} (n : ℕ) {R : B → Type 0} (r : Result A) (w : World L) (k : A → Action L B)
    → w.runs ≤ n
    → ((a : A) → r ≡ ok a → Counts n R (k a w))
    → Counts n R (sequel k (r, w))
step-Counts n (ok a) w k l f = f a refl
step-Counts n (raise x) w k l f = record { runs = l; value = λ a q. cc }

pub commit-Counts :
    {L : Type 0} (env : Environment L) (n : ℕ) (w : World L) (r : Result Table) (x : Fault)
    → w.runs ≤ n
    → Counts n (λ _. Unit) (commit env w (stores r) x)
commit-Counts env n w (ok t) no_fault l = record { runs = l; value = λ _ _. tt }
commit-Counts env n w (ok t) (before_commit x) l = record { runs = l; value = λ _ _. tt }
commit-Counts env n w (ok t) (after_commit x) l = record { runs = l; value = λ _ _. tt }
commit-Counts env n w (raise e) no_fault l = record { runs = l; value = λ _ _. tt }
commit-Counts env n w (raise e) (before_commit x) l = record { runs = l; value = λ _ _. tt }
commit-Counts env n w (raise e) (after_commit x) l = record { runs = l; value = λ _ _. tt }

pub save_execution-Counts :
    {L : Type 0} (env : Environment L) (n : ℕ) (e : Execution) (w : World L)
    → w.runs ≤ n
    → Counts n (λ e'. e' ≡ e) (save_execution env e w)
unfolding save_execution
save_execution-Counts {L} env n e w l =
    sequel-Counts {L = L} n n (λ _. Unit) (λ _ w'. (ok e, w'))
      (commit env (record w { transactions = suc w.transactions }) (stores (save e w.executions))
        (env.fault w.transactions))
      (omega arith)
      (commit-Counts env n (record w { transactions = suc w.transactions }) (save e w.executions)
        (env.fault w.transactions) l)
      (λ _ w' l' _. record { runs = l'; value = λ a q. ground arith })

pub finish_execution-Counts :
    {L : Type 0} (env : Environment L) (n : ℕ) (e : Execution) (o : ExecutionOutcome)
    (r : Option ReasonCode) (x : String) (w : World L)
    → w.runs ≤ n
    → Counts n (λ _. Unit) (finish_execution env e o r x w)
unfolding finish_execution
finish_execution-Counts {L} env n e o r x w l =
    step-Counts {L = L} n (finish e o (env.now w.ticks) r x) _ _ l (λ f _.
      let c = save_execution-Counts env n f (record w { ticks = suc w.ticks }) l in
      record { runs = c.runs; value = λ _ _. tt })

pub count-begin :
    (e : Execution) (a : ExecutionAttempt) (t : _) {f : Execution}
    → begin_attempt e a t ≡ ok f
    → attempt_count f ≡ attempt_count e + 1
unfolding begin_attempt
count-begin e a t {f} h = ground (arith, length-append e.attempts (a ∷ []))

pub count-record :
    (e : Execution) (a : ExecutionAttempt) {f : Execution}
    → record_attempt_result e a ≡ ok f
    → attempt_count f ≡ attempt_count e
unfolding record_attempt_result
count-record e a {f} h = elim (Option-cases (get_last? e.attempts)) [
  | inl n ↦ ground arith
  | inr (b, s) ↦ ground (arith, length-replace_last e.attempts b a s)
]
