-- ===== src/Locks/Durable.antt =====
-- `DurableOverlapLock` (src/taskcontrol/adapters/locking/durable.py) over the claim store. The store
-- reads its clock once in each call; what the clock answers and whether the database can be used go
-- by the number of calls. Logging is left out.
use task_control.Claims.Claim.{Claim, task_subject}
use task_control.Claims.Store
use task_control.Claims.Store.{Table, current}
use task_control.Errors.{Result, ok, raise}
use task_control.Prelude.{
  ℕ, suc, String, Bool, Option, none, some, List, [], ◌∷◌, if◌then◌else◌, str_eq, concat, show,
}
use task_control.Runtime.World.{LockHandle, OverlapLock}
use task_control.Values.{Timestamp, Duration}

pub record DurableState : Type 0 where
  pub claims : Table
  pub held : List (String × Claim)
  pub calls : ℕ

-- `_handle_key`
unfoldable pub handle_key : LockHandle → String
handle_key handle = concat (handle.key ∷ "#" ∷ handle.owner ∷ [])

-- `dict.get`
unfoldable pub lookup : String → List (String × Claim) → Option Claim
lookup key [] = none
lookup key ((k, c) ∷ held) = if str_eq k key then some c else lookup key held

-- `dict.pop(key, None)`: what is left
unfoldable pub without : String → List (String × Claim) → List (String × Claim)
without key [] = []
without key ((k, c) ∷ held) =
    let rest = without key held in if str_eq k key then rest else (k, c) ∷ rest

module _ (lease : Duration) (now : ℕ → Timestamp) (reachable : ℕ → Bool) where
  -- what follows the store's answer in `try_acquire`; a refusal asks `current` for its log entry
  unfoldable pub answered :
      String
      → String
      → DurableState
      → Result (Option Claim) × Table
      → Result (Option LockHandle) × DurableState
  unfolding handle_key without
  answered subject owner s (raise x, t) = (raise x, record s { claims = t; calls = suc s.calls })
  answered subject owner s (ok none, t) =
      let s' : DurableState = record s { claims = t; calls = suc (suc s.calls) } in
      elim (current (reachable (suc s.calls)) (now (suc s.calls)) subject t) [
        | raise x ↦ (raise x, s')
        | ok _ ↦ (ok none, s')
      ]
  answered subject owner s (ok (some c), t) =
      let handle : LockHandle = record { key = subject; owner = owner } in
      (
        ok (some handle),
        record {
          claims = t;
          held = (handle_key handle, c) ∷ without (handle_key handle) s.held;
          calls = suc s.calls;
        },
      )

  -- `try_acquire`
  unfoldable pub acquire :
      String → String → DurableState → Result (Option LockHandle) × DurableState
  unfolding answered
  acquire task_id owner s = elim (task_subject task_id) [
    | raise x ↦ (raise x, s)
    | ok subject ↦
        answered subject owner s
          (Store.try_acquire (reachable s.calls) (now s.calls) subject owner lease s.claims)
  ]

  -- `release`: the claim is forgotten before the store is asked
  unfoldable pub release : LockHandle → DurableState → Result (Unit {0}) × DurableState
  unfolding handle_key lookup without
  release handle s = elim (lookup (handle_key handle) s.held) [
    | none ↦ (ok tt, s)
    | some c ↦
        let (r, t) = Store.release (reachable s.calls) (now s.calls) c s.claims in
        (r, record { claims = t; held = without (handle_key handle) s.held; calls = suc s.calls })
  ]

  abbrev pub durable_lock : OverlapLock DurableState
  durable_lock = record {
    scope_description = concat (
        "every process sharing this database, for a lease of "
        ∷ show lease.seconds
        ∷ " seconds"
        ∷ []);
    try_acquire = acquire;
    release = release;
  }
