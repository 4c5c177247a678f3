-- ===== src/Locks/Leasing.antt =====
-- The durable overlap lock takes and gives back claims
-- (src/taskcontrol/adapters/locking/durable.py).
use mathlib.Core.Path.{subst}
use task_control.Claims.Claim.{Claim, task_subject}
use task_control.Claims.Granting.{granted-row}
use task_control.Claims.Leases.{release_exact}
use task_control.Claims.Operations.{IsUsableOwner, IsFree, granted, try_acquire_exact}
use task_control.Claims.Store
use task_control.Claims.Store.{Row, Table, read_row, holds, current, granted_row}
use task_control.Errors.{Result, ok, raise}
use task_control.Locks.Durable.{
  DurableState, handle_key, lookup, without, answered, acquire, release,
}
use task_control.Prelude.{
  ℕ, suc, String, ◌≡◌, refl, sym, ap, ◌∙◌, ◌<◌, Bool, true, Option, none, some, ◌∷◌, arith, eq_refl,
}
use task_control.Runtime.World.{LockHandle}
use task_control.Values.{Timestamp, Duration, add_duration}

-- What was granted, `got`, is a claim of the subject by this owner until the lease ends, and giving
-- it back works and leaves the subject free.
abbrev pub IsRoundTrip :
    Duration
    → (ℕ → Timestamp)
    → (ℕ → Bool)
    → String
    → String
    → DurableState
    → Result (Option LockHandle) × DurableState
    → Type 0
IsRoundTrip lease now reachable subject owner s got =
    let handle : LockHandle = record { key = subject; owner = owner } in
    let left = release lease now reachable handle got.1 in
    (got.0 ≡ ok (some handle))
    × ((r : Row) × (read_row subject got.1.claims ≡ some r)
        × (r.owner ≡ owner)
        × (r.expires_at ≡ add_duration (now s.calls) lease))
    × (left.0 ≡ ok tt)
    × IsFree (read_row subject left.1.claims) (now (suc s.calls))

module _ (lease : Duration) (now : ℕ → Timestamp) (reachable : ℕ → Bool)
    (up : (n : ℕ) → reachable n ≡ true) (lasts : 0 < lease.seconds) (task_id subject owner : String)
    (named : task_subject task_id ≡ ok subject) (usable : IsUsableOwner owner)
    (s : DurableState) where
  abbrev handle : LockHandle
  handle = record { key = subject; owner = owner }

  abbrev claim : Claim
  claim =
      granted subject owner (now s.calls) (add_duration (now s.calls) lease)
        (read_row subject s.claims)

  abbrev stored : Table
  stored = (Store.try_acquire true (now s.calls) subject owner lease s.claims).1

  abbrev acquired : DurableState
  acquired = record {
    claims = stored;
    held = (handle_key handle, claim) ∷ without (handle_key handle) s.held;
    calls = suc s.calls;
  }

  acquire-free :
      IsFree (read_row subject s.claims) (now s.calls)
      → acquire lease now reachable task_id owner s ≡ (ok (some handle), acquired)
  unfolding acquire answered
  acquire-free free =
      let won =
        (try_acquire_exact (now s.calls) subject owner lease s.claims usable lasts).0 free in
      ap
        (λ (r : Result String). elim r as (λ _. Result (Option LockHandle) × DurableState) [
          | raise x ↦ (raise x, s)
          | ok found ↦
              answered lease now reachable found owner s
                (Store.try_acquire (reachable s.calls) (now s.calls) found owner lease s.claims)
        ])
        named
      ∙ ap
          (λ b.
            answered lease now reachable subject owner s
              (Store.try_acquire b (now s.calls) subject owner lease s.claims))
          (up s.calls)
      ∙ ap (λ r. answered lease now reachable subject owner s (r, stored)) won

  abbrev row : Row
  row = granted_row owner (now s.calls) (add_duration (now s.calls) lease) claim.fencing_token

  abbrev given_back : Result (Unit {0}) × DurableState
  given_back =
      let out = Store.release true (now (suc s.calls)) claim stored in
      (
        out.0,
        record {
          claims = out.1;
          held = without (handle_key handle) acquired.held;
          calls = suc (suc s.calls);
        },
      )

  release-acquired : release lease now reachable handle acquired ≡ given_back
  unfolding release lookup
  release-acquired =
      let own : lookup (handle_key handle) acquired.held ≡ some claim =
        ground (arith, eq_refl (handle_key handle)) in
      let finish = λ (b : Bool) (o : Option Claim).
        (elim o as (λ _. Result (Unit {0}) × DurableState) [
          | none ↦ (ok tt, acquired)
          | some c ↦
              let out = Store.release b (now (suc s.calls)) c stored in
              (
                out.0,
                record {
                  claims = out.1;
                  held = without (handle_key handle) acquired.held;
                  calls = suc (suc s.calls);
                },
              )
        ]) in
      ap (finish (reachable (suc s.calls))) own ∙ ap (λ b. finish b (some claim)) (up (suc s.calls))

  -- With a database that can be used, a usable owner and a lease that is not zero: the lock of a task
  -- whose subject is free is granted, and then the subject is claimed by this owner until the lease
  -- ends. Giving the handle back works, and the subject is free from the instant at which the store
  -- carries that out.
  pub acquire_then_release :
      IsFree (read_row subject s.claims) (now s.calls)
      → IsRoundTrip lease now reachable subject owner s
          (acquire lease now reachable task_id owner s)
  acquire_then_release free =
      let won =
        (try_acquire_exact (now s.calls) subject owner lease s.claims usable lasts).0 free in
      let there = granted-row (now s.calls) subject owner lease s.claims claim won in
      let mine : holds claim row ≡ true = ground (arith, eq_refl owner) in
      let back = release_exact (now (suc s.calls)) claim stored row there in
      let free_again : IsFree (read_row subject given_back.1.claims) (now (suc s.calls)) =
        subst (λ o. IsFree o (now (suc s.calls))) (sym ((back.1 mine).0)) (omega arith) in
      subst (IsRoundTrip lease now reachable subject owner s) (sym (acquire-free free)) (
        refl,
        (row, there, refl, refl),
        ap (λ x. x.0) release-acquired ∙ back.0,
        subst
            (λ (x : Result (Unit {0}) × DurableState).
              IsFree (read_row subject x.1.claims) (now (suc s.calls)))
            (sym release-acquired) free_again,
      )
