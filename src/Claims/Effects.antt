-- ===== src/Claims/Effects.antt =====
-- What each operation of the claim store may do to the table, as a case split for the proofs about
-- interleavings.
use mathlib.Core.Path.{subst}
use task_control.Claims.Claim.{Claim, validate_claim}
use task_control.Claims.Rows.{read_row-update_where, update_where_count}
use task_control.Claims.Schedule.{after_acquire}
use task_control.Claims.Store.{
  Row, Table, read_row, update_where, granted_row, to_claim, insert_or_take_over,
}
use task_control.Errors.{Exception, Result, ok, raise, Result-cases}
use task_control.Prelude.{
  ℕ, ◌+◌, ◌≤◌, String, ◌≡◌, refl, sym, Bool-cases, ◌⊎◌, Bool, true, false, ◌&&◌, Option, none, some,
  ◌∷◌, arith, leb, ◌==◌, if◌then◌else◌, str_eq, eq_iff, Option-cases, inl, inr,
}
use task_control.Values.{Timestamp}

abbrev pub row_of : Claim → Row
row_of c = granted_row c.owner c.acquired_at c.expires_at c.fencing_token

-- The claim may follow what the table held: nothing, or a lapsed row with the token before it.
abbrev pub Follows : Option Row → Claim → Timestamp → Type 0
Follows none c now = c.fencing_token ≡ 1
Follows (some row) c now = (row.expires_at ≤ now) × (c.fencing_token ≡ row.fencing_token + 1)

pub record Grants (subject : String) (now : Timestamp) (t t' : Table) (c : Claim) : Type 0 where
  pub of_subject : c.subject ≡ subject
  pub follows : Follows (read_row subject t) c now
  pub acquired_now : c.acquired_at ≡ now
  pub reads :
      (j : String) → read_row j t' ≡ (if str_eq subject j then some (row_of c) else read_row j t)

abbrev pub AcquireEffect : String → Timestamp → Table → Result (Option Claim) × Table → Type 0
AcquireEffect subject now t (r, t') =
    (((held : ℕ → Option Claim) (i : ℕ) → after_acquire held i r ≡ held) × (t' ≡ t))
    ⊎ ((c : Claim) × (r ≡ ok (some c)) × Grants subject now t t' c)

validate_claim_same : (c : Claim) {d : Claim} → validate_claim c ≡ ok d → d ≡ c
unfolding validate_claim
validate_claim_same c h = ground arith

module _ (subject owner : String) (now expires_at : Timestamp) (t : Table) where
  abbrev Effect : Result (Option Claim) × Table → Type 0
  Effect = AcquireEffect subject now t

  insert-Effect : Effect (insert_or_take_over none subject owner now expires_at t)
  unfolding insert_or_take_over read_row
  insert-Effect = elim (Option-cases (read_row subject t)) [
    | inr (row, e) ↦ subst Effect (sym (busy row e)) (inl (λ held i. refl, refl))
    | inl e ↦
        Result-cases (Effect (insert_or_take_over none subject owner now expires_at t))
          (validate_claim new)
          (λ c h. subst Effect (sym (granted e c h)) (
            inr (
              c,
              refl,
              let same = validate_claim_same new h in
                  record {
                    of_subject = ground arith;
                    follows = rw e (ground arith);
                    acquired_now = ground arith;
                    reads = λ j. ground arith;
                  },
            )))
          (λ x h. subst Effect (sym (invalid e x h)) (inl (λ held i. refl, refl)))
  ]
    where
      new : Claim
      new = to_claim subject (granted_row owner now expires_at 1)

      result : Result (Option Claim) × Table
      result = insert_or_take_over none subject owner now expires_at t

      busy : (row : Row) → read_row subject t ≡ some row → result ≡ (ok none, t)
      busy row e = ground arith

      granted :
          read_row subject t ≡ none
          → (c : Claim) → validate_claim new ≡ ok c
          → result ≡ (ok (some c), (subject, granted_row owner now expires_at 1) ∷ t)
      granted e c h = ground arith

      invalid :
          read_row subject t ≡ none
          → (x : Exception) → validate_claim new ≡ raise x
          → result ≡ (raise x, t)
      invalid e x h = ground arith

  module _ (read : Row) where
    abbrev matching : Row → Bool
    matching r = leb r.expires_at now && r.fencing_token == read.fencing_token

    abbrev taken : Row
    taken = granted_row owner now expires_at (read.fencing_token + 1)

    abbrev result : Result (Option Claim) × Table
    result = insert_or_take_over (some read) subject owner now expires_at t

    abbrev count : ℕ
    count = (update_where subject matching (λ _. taken) t).1

    missed : (count == 1) ≡ false → result ≡ (ok none, t)
    unfolding insert_or_take_over
    missed e = ground arith

    granted :
        (count == 1) ≡ true
        → (c : Claim) → validate_claim (to_claim subject taken) ≡ ok c
        → result ≡ (ok (some c), (update_where subject matching (λ _. taken) t).0)
    unfolding insert_or_take_over
    granted e c h = ground arith

    invalid :
        (count == 1) ≡ true
        → (x : Exception) → validate_claim (to_claim subject taken) ≡ raise x
        → result ≡ (raise x, t)
    unfolding insert_or_take_over
    invalid e x h = ground arith

    matched :
        (count == 1) ≡ true → (row : Row) × (read_row subject t ≡ some row) × (matching row ≡ true)
    matched e = elim (Option-cases (read_row subject t)) [
      | inl n ↦ absurd (ground (arith, update_where_count subject matching (λ _. taken) t))
      | inr (row, r) ↦ (row, r, ground (arith, update_where_count subject matching (λ _. taken) t))
    ]

    granted_reads :
        (row : Row)
        → read_row subject t ≡ some row
        → matching row ≡ true
        → (j : String)
        → read_row j (update_where subject matching (λ _. taken) t).0
          ≡ (if str_eq subject j then some taken else read_row j t)
    granted_reads row e m j =
        ground (arith, read_row-update_where subject matching (λ _. taken) j t, eq_iff subject j)

    take_over-Effect : Effect result
    take_over-Effect = elim (Bool-cases (count == 1)) [
      | inr e ↦ subst Effect (sym (missed e)) (inl (λ held i. refl, refl))
      | inl e ↦
          Result-cases (Effect result) (validate_claim (to_claim subject taken))
            (λ c h. subst Effect (sym (granted e c h)) (
              inr (
                c,
                refl,
                let (row, r, m) = matched e in
                    let same = validate_claim_same (to_claim subject taken) h in
                    record {
                      of_subject = ground arith;
                      follows = rw r (ground arith);
                      acquired_now = ground arith;
                      reads = λ j. ground (arith, granted_reads row r m j);
                    },
              )))
            (λ x h. subst Effect (sym (invalid e x h)) (inl (λ held i. refl, refl)))
    ]

pub acquire_effect :
    (read : Option Row) (subject owner : String) (now expires_at : Timestamp) (t : Table)
    → AcquireEffect subject now t (insert_or_take_over read subject owner now expires_at t)
acquire_effect none subject owner now expires_at t = insert-Effect subject owner now expires_at t
acquire_effect (some row) subject owner now expires_at t =
    take_over-Effect subject owner now expires_at t row
