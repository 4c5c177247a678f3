-- ===== src/Claims/Operations.antt =====
-- What one operation of the claim store does on its own.
use task_control.Claims.Claim.{Claim, validate_claim, max_owner_length}
use task_control.Claims.Rows.{update_where_count}
use task_control.Claims.Store.{Row, Table, read_row, granted_row, insert_or_take_over, try_acquire}
use task_control.Errors.{ok}
use task_control.Prelude.{
  ℕ, ◌+◌, ◌≤◌, ◌<◌, String, ◌≡◌, true, false, ◌&&◌, Option, none, some, arith, leb, ◌==◌, len,
  is_blank, inl, inr, Option-cases,
}
use task_control.Values.{Timestamp, Duration, add_duration}

-- an owner that a claim can be made out to
abbrev pub IsUsableOwner : String → Type 0
IsUsableOwner owner = (is_blank owner ≡ false) × (len owner ≤ max_owner_length)

-- no claim on the subject is live: there is no row, or its lease has ended
abbrev pub IsFree : Option Row → Timestamp → Type 0
IsFree none now = Unit
IsFree (some row) now = row.expires_at ≤ now

abbrev pub next_token : Option Row → ℕ
next_token none = 1
next_token (some row) = row.fencing_token + 1

abbrev pub granted : String → String → Timestamp → Timestamp → Option Row → Claim
granted subject owner now expires_at row = record {
  subject = subject;
  owner = owner;
  acquired_at = now;
  expires_at = expires_at;
  fencing_token = next_token row;
}

module _ (now expires_at : Timestamp) (subject owner : String) (t : Table) (u : IsUsableOwner owner)
    (l : now < expires_at) where
  acquire_new :
      read_row subject t ≡ none
      → (insert_or_take_over none subject owner now expires_at t).0
        ≡ ok (some (granted subject owner now expires_at none))
  unfolding insert_or_take_over validate_claim
  acquire_new e = ground arith

  acquire_lapsed :
      (row : Row)
      → read_row subject t ≡ some row
      → row.expires_at ≤ now
      → (insert_or_take_over (some row) subject owner now expires_at t).0
        ≡ ok (some (granted subject owner now expires_at (some row)))
  unfolding insert_or_take_over validate_claim
  acquire_lapsed row e h =
      let count =
        update_where_count subject
          (λ r. leb r.expires_at now && r.fencing_token == row.fencing_token)
          (λ _. granted_row owner now expires_at (row.fencing_token + 1)) t in
      ground arith

  acquire_live :
      (row : Row)
      → read_row subject t ≡ some row
      → now < row.expires_at
      → insert_or_take_over (some row) subject owner now expires_at t ≡ (ok none, t)
  unfolding insert_or_take_over validate_claim
  acquire_live row e h =
      let count =
        update_where_count subject
          (λ r. leb r.expires_at now && r.fencing_token == row.fencing_token)
          (λ _. granted_row owner now expires_at (row.fencing_token + 1)) t in
      ground arith

-- On a reachable store, with a usable owner and a lease that is not zero, a claim on a free subject
-- is granted, under the token behind the last one used; a claim on a subject that is not free is
-- refused, and nothing is written.
pub try_acquire_exact :
    (now : Timestamp) (subject owner : String) (lease : Duration) (t : Table)
    → IsUsableOwner owner
    → 0 < lease.seconds
    → (IsFree (read_row subject t) now
        → (try_acquire true now subject owner lease t).0
          ≡ ok (some (granted subject owner now (add_duration now lease) (read_row subject t))))
      × (¬ IsFree (read_row subject t) now
          → try_acquire true now subject owner lease t ≡ (ok none, t))
unfolding try_acquire add_duration
try_acquire_exact now subject owner lease t u l = elim (Option-cases (read_row subject t)) [
  | inl e ↦ rw e (
    λ _. acquire_new now (add_duration now lease) subject owner t u lasts e,
    λ busy. absurd (busy tt),
  )
  | inr (row, e) ↦ rw e (
    λ lapsed. acquire_lapsed now (add_duration now lease) subject owner t u lasts row e lapsed,
    λ busy. acquire_live now (add_duration now lease) subject owner t u lasts row e (omega arith),
  )
]
  where
    lasts : now < add_duration now lease
    lasts = omega arith
