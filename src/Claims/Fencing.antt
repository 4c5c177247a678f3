-- ===== src/Claims/Fencing.antt =====
-- The fencing tokens of successive claims (src/taskcontrol/adapters/persistence/claim_store.py).
use mathlib.Core.Path.{subst}
use task_control.Claims.Changes.{renew_effect, release_effect, RenewEffect}
use task_control.Claims.Claim.{Claim}
use task_control.Claims.Effects.{Follows, row_of, acquire_effect, AcquireEffect}
use task_control.Claims.Rows.{updated}
use task_control.Claims.Schedule.{
  System, after_acquire, Step, waits, acquires, renews, releases, crashes, Reach, here, next,
}
use task_control.Claims.Store.{Row, Table, read_row, holds, insert_or_take_over, renew, release}
use task_control.Errors.{Result, ok}
use task_control.Prelude.{
  ℕ, ◌≤◌, ◌<◌, String, ◌≡◌, refl, sym, ap, ◌∙◌, Bool, true, false, Option, none, some, arith,
  if◌then◌else◌, str_eq, eq_iff, inl, inr,
}
use task_control.Values.{Timestamp, add_duration}

-- a row is there, with this token or a later one
abbrev pub IsPast : ℕ → Option Row → Type 0
IsPast n none = ⊥
IsPast n (some row) = n ≤ row.fencing_token

Follows-IsPast :
    (n : ℕ) (o : Option Row) (c : Claim) (now : Timestamp)
    → Follows o c now
    → IsPast n o
    → n < c.fencing_token
Follows-IsPast n none c now f p = absurd p
Follows-IsPast n (some row) c now f p = omega arith

choose-IsPast :
    (n : ℕ) (b : Bool) (x y : Option Row)
    → (b ≡ true → IsPast n x)
    → IsPast n y
    → IsPast n (if b then x else y)
choose-IsPast n true x y f p = f refl
choose-IsPast n false x y f p = p

updated-IsPast :
    (n : ℕ) (test : Row → Bool) (end : Timestamp) (o : Option Row)
    → IsPast n o
    → IsPast n (updated test (λ r. record r { expires_at = end }) o)
updated-IsPast n test end none p = p
updated-IsPast n test end (some row) p = ground arith

acquire-IsPast :
    (n : ℕ) (j subject : String) (now : Timestamp) (t : Table) (r : Result (Option Claim))
    (t' : Table)
    → AcquireEffect subject now t (r, t')
    → IsPast n (read_row j t)
    → IsPast n (read_row j t')
acquire-IsPast n j subject now t r t' (inl (_, same)) p =
    subst (λ u. IsPast n (read_row j u)) (sym same) p
acquire-IsPast n j subject now t r t' (inr (c, _, g)) p = subst (IsPast n) (sym (g.reads j)) (
    choose-IsPast n (str_eq subject j) (some (row_of c)) (read_row j t)
      (λ e.
        let past : IsPast n (read_row subject t) =
          subst (λ k. IsPast n (read_row k t)) (sym ((eq_iff subject j).0 e)) p in
        omega (arith, Follows-IsPast n (read_row subject t) c now g.follows past))
      p)

renew-IsPast :
    (n : ℕ) (j : String) (c : Claim) (end : Timestamp) (t : Table) (r : Result Claim) (t' : Table)
    → RenewEffect c end t (r, t')
    → IsPast n (read_row j t)
    → IsPast n (read_row j t')
renew-IsPast n j c end t r t' (inl (_, same)) p = subst (λ u. IsPast n (read_row j u)) (sym same) p
renew-IsPast n j c end t r t' (inr (row, stored, _, reads, _)) p =
    subst (IsPast n) (sym (reads j)) (
      choose-IsPast n (str_eq c.subject j) (some (record row { expires_at = end })) (read_row j t)
        (λ e.
          subst (IsPast n) stored
            (subst (λ k. IsPast n (read_row k t)) (sym ((eq_iff c.subject j).0 e)) p))
        p)

release-IsPast :
    (n : ℕ) (j : String) (reachable : Bool) (now : Timestamp) (c : Claim) (t : Table)
    → IsPast n (read_row j t)
    → IsPast n (read_row j (release reachable now c t).1)
release-IsPast n j reachable now c t p = elim (release_effect reachable now c t) [
  | inl same ↦ subst (λ u. IsPast n (read_row j u)) (sym same) p
  | inr reads ↦ subst (IsPast n) (sym (reads j)) (
      choose-IsPast n (str_eq c.subject j) _ (read_row j t)
        (λ _. updated-IsPast n (holds c) now (read_row j t) p) p)
]

Step-IsPast :
    (n : ℕ) (j : String) {s t : System}
    → Step s t
    → IsPast n (read_row j s.table)
    → IsPast n (read_row j t.table)
Step-IsPast n j (waits time h) p = p
Step-IsPast n j {s} (acquires i read subject owner now expires_at h) p =
    let r = insert_or_take_over read subject owner now expires_at s.table in
    acquire-IsPast n j subject now s.table r.0 r.1
      (acquire_effect read subject owner now expires_at s.table) p
Step-IsPast n j {s} (renews i c reachable now lease h e) p =
    let r = renew reachable now c lease s.table in
    renew-IsPast n j c (add_duration now lease) s.table r.0 r.1
      (renew_effect now c lease s.table reachable) p
Step-IsPast n j {s} (releases i c reachable now h e) p =
    release-IsPast n j reachable now c s.table p
Step-IsPast n j (crashes i) p = p

Reach-IsPast :
    (n : ℕ) (j : String) {s t : System}
    → Reach s t
    → IsPast n (read_row j s.table)
    → IsPast n (read_row j t.table)
Reach-IsPast n j here p = p
Reach-IsPast n j (next r s) p = Step-IsPast n j s (Reach-IsPast n j r p)

granted-Follows :
    (read : Option Row) (subject owner : String) (now expires_at : Timestamp) (t : Table)
    (c : Claim)
    → (insert_or_take_over read subject owner now expires_at t).0 ≡ ok (some c)
    → Follows (read_row subject t) c now
granted-Follows read subject owner now expires_at t c h =
    elim (acquire_effect read subject owner now expires_at t) [
      | inl (same, _) ↦
          let forgets : after_acquire (λ _. none) 0 (ok (some c)) 0 ≡ none =
            ap (λ r. after_acquire (λ _. none) 0 r 0) (sym h)
            ∙ ap (λ f. f 0) (same (λ _. none) 0) in
          ground arith
      | inr (d, e, g) ↦
          let same : d ≡ c = ground (arith, h) in
          subst (λ x. Follows (read_row subject t) x now) same g.follows
    ]

-- A claim that is granted has a greater fencing token than any that the subject's row has had at an
-- earlier state, whatever processes have claimed, renewed, released and crashed in between, with
-- however old a clock and a read the grant is made.
pub tokens_increase :
    {s t : System}
    → Reach s t
    → (subject : String) (row : Row) → read_row subject s.table ≡ some row
    → (read : Option Row) (owner : String) (now expires_at : Timestamp) (c : Claim)
    → (insert_or_take_over read subject owner now expires_at t.table).0 ≡ ok (some c)
    → row.fencing_token < c.fencing_token
tokens_increase {s} {t} reach subject row stored read owner now expires_at c h =
    let past : IsPast row.fencing_token (read_row subject s.table) =
      subst (IsPast row.fencing_token) (sym stored) (omega arith) in
    Follows-IsPast row.fencing_token (read_row subject t.table) c now
      (granted-Follows read subject owner now expires_at t.table c h)
      (Reach-IsPast row.fencing_token subject reach past)
