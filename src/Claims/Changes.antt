-- ===== src/Claims/Changes.antt =====
-- What renewing and releasing may do to the claim table, as a case split for the proofs about
-- interleavings (src/taskcontrol/adapters/persistence/claim_store.py).
use mathlib.Core.Path.{subst}
use task_control.Claims.Claim.{Claim, renewed_until}
use task_control.Claims.Rows.{
  updated, read_row-update_where, update_where_count, update_where_unchanged,
}
use task_control.Claims.Schedule.{after_renew}
use task_control.Claims.Store.{Row, Table, read_row, update_where, holds, renew, release}
use task_control.Errors.{Result}
use task_control.Prelude.{
  ℕ, String, ◌≡◌, refl, sym, Bool-cases, ◌⊎◌, Bool, true, false, ◌&&◌, some, arith, ltb, ◌==◌,
  if◌then◌else◌, str_eq, eq_iff, Option-cases, inl, inr,
}
use task_control.Values.{Timestamp, Duration, add_duration}

abbrev pub RenewEffect : Claim → Timestamp → Table → Result Claim × Table → Type 0
RenewEffect c end t (r, t') =
    ((after_renew c r ≡ c) × (t' ≡ t))
    ⊎ ((row : Row) × (read_row c.subject t ≡ some row)
        × (holds c row ≡ true)
        × ((j : String)
            → read_row j t' ≡ (
                if str_eq c.subject j
                then some (record row { expires_at = end })
                else read_row j t))
        × ((after_renew c r ≡ c) ⊎ (after_renew c r ≡ record c { expires_at = end })))

module _ (now : Timestamp) (c : Claim) (lease : Duration) (t : Table) where
  abbrev new_end : Timestamp
  new_end = add_duration now lease

  abbrev renewable : Row → Bool
  renewable r = holds c r && ltb now r.expires_at

  abbrev extend : Row → Row
  extend r = record r { expires_at = new_end }

  abbrev renewed : Table × ℕ
  renewed = update_where c.subject renewable extend t

  renew_lost : (renewed.1 == 1) ≡ false → RenewEffect c new_end t (renew true now c lease t)
  unfolding renew
  renew_lost e = inl (
    ground arith,
    ground (
      arith,
      update_where_unchanged c.subject renewable extend t,
      update_where_count c.subject renewable extend t,
    ),
  )

  renewed_until_cases :
      (after_renew c (renewed_until c new_end) ≡ c)
      ⊎ (after_renew c (renewed_until c new_end) ≡ record c { expires_at = new_end })
  unfolding renewed_until
  renewed_until_cases = ground arith

  renew_kept :
      (renewed.1 == 1) ≡ true → renew true now c lease t ≡ (renewed_until c new_end, renewed.0)
  unfolding renew
  renew_kept e = rw e

  renew_matched :
      (renewed.1 == 1) ≡ true
      → (row : Row) × (read_row c.subject t ≡ some row) × (renewable row ≡ true)
  renew_matched e = elim (Option-cases (read_row c.subject t)) [
    | inl n ↦ absurd (ground (arith, update_where_count c.subject renewable extend t))
    | inr (row, r) ↦ (row, r, ground (arith, update_where_count c.subject renewable extend t))
  ]

  pub renew_effect : (reachable : Bool) → RenewEffect c new_end t (renew reachable now c lease t)
  unfolding renew
  renew_effect false = inl (refl, refl)
  renew_effect true = elim (Bool-cases (renewed.1 == 1)) [
    | inr e ↦ renew_lost e
    | inl e ↦
        let (row, r, m) = renew_matched e in
        subst (RenewEffect c new_end t) (sym (renew_kept e)) (
          inr (
            row,
            r,
            ground arith,
            λ j.
                ground
                  (arith, read_row-update_where c.subject renewable extend j t, eq_iff c.subject j),
            renewed_until_cases,
          ))
  ]

pub release_effect :
    (reachable : Bool) (now : Timestamp) (c : Claim) (t : Table)
    → ((release reachable now c t).1 ≡ t)
      ⊎ ((j : String)
          → read_row j (release reachable now c t).1 ≡ (
              if str_eq c.subject j
              then updated (holds c) (λ r. record r { expires_at = now }) (read_row j t)
              else read_row j t))
unfolding release
release_effect false now c t = inl refl
release_effect true now c t =
    inr (λ j. read_row-update_where c.subject (holds c) (λ r. record r { expires_at = now }) j t)
