-- ===== src/Claims/Leases.antt =====
-- Renewing and releasing a claim, and reading one back.
use task_control.Claims.Claim.{Claim, shortened_message, empty_lease_message}
use task_control.Claims.Operations.{IsUsableOwner}
use task_control.Claims.Rows.{
  updated, updated_count, read_row-update_where, update_where_count, update_where_unchanged,
}
use task_control.Claims.Store.{
  Row, Table, read_row, update_where, holds, not_held_message, renew, release, current,
}
use task_control.Errors.{ok, raise, error, claim_not_held, validation_failed}
use task_control.Prelude.{
  ◌≤◌, ◌<◌, String, ◌≡◌, ◌≢◌, refl, ap, ◌∙◌, ◌⊎◌, true, false, ◌&&◌, some, arith, ltb,
  if◌then◌else◌, str_eq, eq_iff, eq_refl,
}
use task_control.Values.{Timestamp, Duration, add_duration}

module _ (now : Timestamp) (c : Claim) (lease : Duration) (t : Table) (row : Row)
    (stored : read_row c.subject t ≡ some row) where
  abbrev end : Timestamp
  end = add_duration now lease

  count :
      (update_where c.subject
        (λ r. holds c r && ltb now r.expires_at)
        (λ r. record r { expires_at = end })
        t).1
      ≡ (if holds c row && ltb now row.expires_at then 1 else 0)
  count =
      update_where_count c.subject (λ r. holds c r && ltb now r.expires_at)
        (λ r. record r { expires_at = end }) t
      ∙ ap (updated_count (λ r. holds c r && ltb now r.expires_at)) stored

  read_self :
      (j : String)
      → read_row j
          (update_where c.subject
            (λ r. holds c r && ltb now r.expires_at)
            (λ r. record r { expires_at = end })
            t).0
        ≡ (if str_eq c.subject j
            then updated
                (λ r. holds c r && ltb now r.expires_at)
                (λ r. record r { expires_at = end })
                (read_row j t)
            else read_row j t)
  read_self j =
      read_row-update_where c.subject (λ r. holds c r && ltb now r.expires_at)
        (λ r. record r { expires_at = end }) j t

  -- A holder whose claim is stored and live, and who asks for a later expiry, gets the same claim
  -- with that expiry, and it is what is stored; no other subject is touched. A caller whose claim
  -- was superseded, or has lapsed, is told so and nothing is written.
  pub renew_exact :
      (IsUsableOwner c.owner
        → c.acquired_at < c.expires_at
        → holds c row ≡ true
        → now < row.expires_at
        → c.expires_at < end
        → ((renew true now c lease t).0 ≡ ok (record c { expires_at = end }))
          × (read_row c.subject (renew true now c lease t).1
              ≡ some (record row { expires_at = end }))
          × ((j : String) → j ≢ c.subject → read_row j (renew true now c lease t).1 ≡ read_row j t))
      × ((holds c row ≡ false) ⊎ (row.expires_at ≤ now)
          → renew true now c lease t ≡ (raise (claim_not_held (not_held_message c)), t))
  unfolding renew
  renew_exact = (
    λ u o h l x. (
      ground (arith, count),
      ground (arith, count, read_self c.subject, eq_refl c.subject),
      λ j ne. ground (arith, read_self j, eq_iff c.subject j),
    ),
    λ lost. ground (
      arith,
      count,
      update_where_unchanged c.subject (λ r. holds c r && ltb now r.expires_at)
          (λ r. record r { expires_at = end }) t,
    ),
  )

  -- A renewal that would not extend the claim raises a validation error, and yet it has already
  -- stored the earlier expiry: the subject becomes claimable sooner than its holder expects.
  pub renew_shortens :
      holds c row ≡ true
      → now < row.expires_at
      → end ≤ c.expires_at
      → ((renew true now c lease t).0 ≡ raise (error validation_failed shortened_message))
        × (read_row c.subject (renew true now c lease t).1 ≡ some (record row { expires_at = end }))
  unfolding renew
  renew_shortens h l x =
      (ground (arith, count), ground (arith, count, read_self c.subject, eq_refl c.subject))

-- Where the store can be reached, no release raises. One by the holder that is stored ends the stored lease now, keeps the token, and touches no
-- other subject. A release by any other caller, such as one that was superseded, changes nothing.
pub release_exact :
    (now : Timestamp) (c : Claim) (t : Table) (row : Row)
    → read_row c.subject t ≡ some row
    → ((release true now c t).0 ≡ ok tt)
      × (holds c row ≡ true
          → (read_row c.subject (release true now c t).1 ≡ some (record row { expires_at = now }))
            × ((j : String) → j ≢ c.subject → read_row j (release true now c t).1 ≡ read_row j t))
      × (holds c row ≡ false → release true now c t ≡ (ok tt, t))
unfolding release
release_exact now c t row e =
    let read = λ (j : String).
      read_row-update_where c.subject (holds c) (λ r. record r { expires_at = now }) j t in
    (
      refl,
      λ h. (
        ground (arith, read c.subject, eq_refl c.subject),
        λ j ne. ground (arith, read j, eq_iff c.subject j),
      ),
      λ h. ground (
        arith,
        update_where_count c.subject (holds c) (λ r. record r { expires_at = now }) t,
        update_where_unchanged c.subject (holds c) (λ r. record r { expires_at = now }) t,
      ),
    )

-- A claim that is released at the very instant at which it was granted leaves a row that `current`
-- cannot read: from then on, until the subject is claimed again, it raises a validation error
-- instead of answering that there is no live claim.
pub current_after_immediate_release :
    (now later : Timestamp) (c : Claim) (t : Table) (row : Row)
    → read_row c.subject t ≡ some row
    → holds c row ≡ true
    → row.acquired_at ≡ now
    → IsUsableOwner row.owner
    → 1 ≤ row.fencing_token
    → current true later c.subject (release true now c t).1
      ≡ raise (error validation_failed empty_lease_message)
unfolding current
current_after_immediate_release now later c t row e h a u p =
    rw (((release_exact now c t row e).1 h).0) (ground arith)
