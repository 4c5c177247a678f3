-- ===== src/Runtime/Closing.antt =====
-- The `finally` of `_execute` and its handlers: what they leave of the execution's row
-- (src/taskcontrol/application/runtime/service.py).
use mathlib.Core.Path.{subst}
use task_control.Errors.{Exception, Result, ok, raise, is_exception}
use task_control.Execution.Record.{Execution}
use task_control.Persistence.Executions.{Table}
use task_control.Prelude.{
  ℕ, suc, String, ◌≡◌, refl, sym, ap, ◌∙◌, ◌≢◌, ◌⊎◌, Option, none, some, inl, inr, if_elim,
  if◌then◌else◌,
}
use task_control.Runtime.Ending.{IsEndedRow, IsForced, finish_current-IsForced}
use task_control.Runtime.Keeping.{IsKept}
use task_control.Runtime.Running.{IsEnded}
use task_control.Runtime.Service.{finish_current, force_terminal, clean_up, swallow}
use task_control.Runtime.World.{
  LockHandle, Environment, World, Action, Fault, no_fault, before_commit, after_commit, commit,
  sequel,
}

module _ {L : Type 0} (env : Environment L) where
  -- the last transaction was ended by an exception from outside
  abbrev pub LastFailed : World L → Type 0
  LastFailed w = (n : ℕ) × (w.transactions ≡ suc n) × (env.fault n ≢ no_fault)

  -- The call ended with what a release of the lock raised, and left the lock as that release did.
  abbrev pub ReleaseRaised : {A : Type 0} → Result A × World L → Type 0
  ReleaseRaised (r, w) =
      (h : LockHandle) × (l : L) × (x : Exception) × (env.lock.release h l
        ≡ (raise x, w.lock_state))
      × (r ≡ raise x)

module _ {L : Type 0} (env : Environment L) (id : String) (t0 : Table) where
  -- The row of the execution is finished, unless the last transaction failed.
  record IsSettled (w : World L) : Type 0 where
    pub kept : IsKept id t0 w.executions
    pub settled : IsEndedRow id w.executions ⊎ LastFailed env w

  -- The row of the execution is finished, unless the last transaction failed, or the call itself ended
  -- with what the release of the lock raised.
  pub record IsClosed {A : Type 0} (p : Result A × World L) : Type 0 where
    pub kept : IsKept id t0 p.1.executions
    pub closed : IsEndedRow id p.1.executions ⊎ LastFailed env p.1 ⊎ ReleaseRaised env p

  settled-IsClosed : {A : Type 0} (p : Result A × World L) → IsSettled p.1 → IsClosed p
  settled-IsClosed p s = record {
    kept = s.kept;
    closed = elim s.settled [ inl ended ↦ inl ended | inr failed ↦ inr (inl failed) ];
  }

  commit-IsSettled :
      (w : World L) (n : ℕ) (t : Table) (x : Fault)
      → w.transactions ≡ suc n
      → env.fault n ≡ x
      → IsKept id t0 w.executions
      → IsForced id t0 t
      → IsSettled (commit env w (ok (tt {0}, t)) x).1
  commit-IsSettled w n t no_fault p q k f = record { kept = f.kept; settled = inl f.ended }
  commit-IsSettled w n t (before_commit x) p q k f = record {
    kept = k;
    settled = inr (n, p, λ h. cc);
  }
  commit-IsSettled w n t (after_commit x) p q k f = record {
    kept = f.kept;
    settled = inr (n, p, λ h. cc);
  }

  world-swallow : (p : Result (Unit {0}) × World L) → (swallow env p).1 ≡ p.1
  world-swallow (ok _, w) = refl
  world-swallow (raise x, w) =
      if_elim (λ (r : Result (Unit {0}) × World L). r.1 ≡ w) (is_exception x) refl refl

  force_terminal-IsSettled :
      (e : Execution) (w : World L)
      → e.execution_id ≡ id
      → IsKept id t0 w.executions
      → IsSettled (force_terminal env e w).1
  unfolding force_terminal
  force_terminal-IsSettled e w p k =
      let (t, q, f) = finish_current-IsForced id t0 w.executions (env.now w.ticks) k in
      let w1 : World L = record w { ticks = suc w.ticks; transactions = suc w.transactions } in
      let q' = ap (λ i. finish_current i (env.now w.ticks) w.executions) p ∙ q in
      subst IsSettled
        (sym (
          world-swallow (
            commit env w1 (finish_current e.execution_id (env.now w.ticks) w.executions)
              (env.fault w.transactions))))
        (subst (λ r. IsSettled (commit env w1 r (env.fault w.transactions)).1) (sym q')
          (commit-IsSettled w1 w.transactions t (env.fault w.transactions) refl refl k f))

  sequel-IsClosed :
      {A B : Type 0} (r : Result A) (w : World L) (k : A → Action L B)
      → ((x : Exception) → r ≡ raise x → IsClosed {A = B} (raise x, w))
      → ((a : A) → IsClosed (k a w))
      → IsClosed (sequel k (r, w))
  sequel-IsClosed (ok a) w k f g = g a
  sequel-IsClosed (raise x) w k f g = f x refl

  world-last :
      {A B : Type 0} (r : Result B) (p : Result A × World L) → (sequel (λ _ w. (r, w)) p).1 ≡ p.1
  world-last r (ok a, w) = refl
  world-last r (raise x, w) = refl

  -- what `finished` says at the `finally`: nothing, or that the end has been stored
  abbrev pub IsReported : Option Execution → Table → Type 0
  IsReported none t = Unit
  IsReported (some f) t = IsEnded id t f

  closing :
      (e : Execution) (reported : Option Execution) (outcome : Result Execution) (w : World L)
      → e.execution_id ≡ id
      → IsKept id t0 w.executions
      → IsReported reported w.executions
      → IsSettled (clean_up env e none reported outcome w).1
  unfolding clean_up
  closing e none outcome w p k h =
      subst IsSettled (sym (world-last outcome (force_terminal env e w)))
        (force_terminal-IsSettled e w p k)
  closing e (some f) outcome w p k h =
      subst
        (λ b.
          IsSettled
            (sequel (λ _ w'. (outcome, w'))
              ((if b then (λ w'. (ok tt, w')) else force_terminal env e) w)).1)
        (sym h.ended)
        (record {
          kept = k;
          settled = inl (record { row = h.row; found = h.found; row_ended = h.row_ended });
        })

  pub clean_up-IsClosed :
      (e : Execution) (handle : Option LockHandle) (reported : Option Execution)
      (outcome : Result Execution) (w : World L)
      → e.execution_id ≡ id
      → IsKept id t0 w.executions
      → IsReported reported w.executions
      → IsClosed (clean_up env e handle reported outcome w)
  unfolding clean_up
  clean_up-IsClosed e none reported outcome w p k h =
      settled-IsClosed _ (closing e reported outcome w p k h)
  clean_up-IsClosed e (some handle) reported outcome w p k h =
      let answer = env.lock.release handle w.lock_state in
      let w2 : World L = record w { lock_state = answer.1 } in
      sequel-IsClosed answer.0 w2 _
        (λ x q. record {
          kept = k;
          closed = inr (inr (handle, w.lock_state, x, ap (λ r. (r, answer.1)) q, refl));
        })
        (λ _. settled-IsClosed _ (closing e reported outcome w2 p k h))
