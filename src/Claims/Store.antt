-- ===== src/Claims/Store.antt =====
-- `SqlAlchemyClaimStore` (src/taskcontrol/adapters/persistence/claim_store.py) over a table whose
-- primary key is the subject (`ClaimRecord` of src/taskcontrol/adapters/persistence/models.py).
-- Each operation is one transaction. `now` is what the clock answers and `reachable` is whether
-- the database can be used. A statement of SQL is atomic; `try_acquire` is two of them, a read and
-- a write, and other processes may write in between: `read_row` and `insert_or_take_over` are the
-- two halves, and `try_acquire` is both with nothing in between.
use task_control.Claims.Claim.{Claim, validate_claim, renewed_until, has_expired_at, make_token}
use task_control.Errors.{
  Result, ok, raise, claim_not_held, error, transient_infrastructure_failure, ◌>>=◌, ◌>>◌,
}
use task_control.Prelude.{
  ℕ, ◌+◌, String, Bool, ◌&&◌, Option, none, some, List, [], ◌∷◌, ltb, leb, ◌==◌, if◌then◌else◌,
  str_eq, concat,
}
use task_control.Values.{Timestamp, Duration, add_duration}

-- `ClaimRecord`
pub record Row : Type 0 where
  pub owner : String
  pub acquired_at : Timestamp
  pub expires_at : Timestamp
  pub fencing_token : ℕ

abbrev pub Table : Type 0
Table = List (String × Row)

-- `session.get(ClaimRecord, key)`
unfoldable pub read_row : String → Table → Option Row
read_row key [] = none
read_row key ((k, row) ∷ t) = if str_eq k key then some row else read_row key t

-- `update(ClaimRecord).where(subject == key, test).values(...)`, with the number of rows changed
unfoldable pub update_where : String → (Row → Bool) → (Row → Row) → Table → Table × ℕ
update_where key test change [] = ([], 0)
update_where key test change ((k, row) ∷ t) =
    let (rest, n) = update_where key test change t in
    if str_eq k key
    then (if test row then ((k, change row) ∷ t, 1) else ((k, row) ∷ t, 0))
    else ((k, row) ∷ rest, n)

abbrev pub to_claim : String → Row → Claim
to_claim subject row = record {
  subject = subject;
  owner = row.owner;
  acquired_at = row.acquired_at;
  expires_at = row.expires_at;
  fencing_token = row.fencing_token;
}

abbrev pub granted_row : String → Timestamp → Timestamp → ℕ → Row
granted_row owner now expires_at token = record {
  owner = owner;
  acquired_at = now;
  expires_at = expires_at;
  fencing_token = token;
}

-- The second half of `_insert_or_take_over`, with the row that its first statement has read. The
-- claim is constructed before the commit: where its own check refuses it, the change is lost.
-- `found` is what the read answered and `t` the table now.
unfoldable pub insert_or_take_over :
    Option Row → String → String → Timestamp → Timestamp → Table → Result (Option Claim) × Table
insert_or_take_over none subject owner now expires_at t =
    let row = granted_row owner now expires_at 1 in
    elim (read_row subject t) [
      | some _ ↦ (ok none, t)
      | none ↦ elim (validate_claim (to_claim subject row)) [
        | ok c ↦ (ok (some c), (subject, row) ∷ t)
        | raise e ↦ (raise e, t)
      ]
    ]
insert_or_take_over (some read) subject owner now expires_at t =
    let row = granted_row owner now expires_at (read.fencing_token + 1) in
    let (t', taken_over) =
      update_where subject (λ r. leb r.expires_at now && r.fencing_token == read.fencing_token)
        (λ _. row) t in
    if taken_over == 1
    then elim (validate_claim (to_claim subject row)) [
      | ok c ↦ (ok (some c), t')
      | raise e ↦ (raise e, t)
    ]
    else (ok none, t)

unreachable_store : {A : Type 0} → String → Result A
unreachable_store m = raise (error transient_infrastructure_failure m)

unfoldable pub try_acquire :
    Bool → Timestamp → String → String → Duration → Table → Result (Option Claim) × Table
unfolding unreachable_store insert_or_take_over
try_acquire reachable now subject owner lease t =
    if reachable
    then insert_or_take_over (read_row subject t) subject owner now (add_duration now lease) t
    else (
      unreachable_store
          "Could not reach the claim store, so it is not known whether this capability is already running. Refusing to start rather than risk two runs at once.",
      t,
    )

abbrev pub holds : Claim → Row → Bool
holds c row = str_eq row.owner c.owner && row.fencing_token == c.fencing_token

unfoldable pub not_held_message : Claim → String
not_held_message c = concat (
    "The claim on " ∷ c.subject ∷ " is no longer held by " ∷ c.owner
    ∷ ". It lapsed, or another process has taken it over." ∷ [])

-- The row is committed before the claim that is returned is checked.
unfoldable pub renew : Bool → Timestamp → Claim → Duration → Table → Result Claim × Table
unfolding unreachable_store update_where renewed_until add_duration
renew reachable now c lease t =
    let expires_at = add_duration now lease in
    let (t', renewed) =
      update_where c.subject (λ r. holds c r && ltb now r.expires_at)
        (λ r. record r { expires_at = expires_at }) t in
    if reachable
    then (if renewed == 1
        then (renewed_until c expires_at, t')
        else (raise (claim_not_held (not_held_message c)), t'))
    else (unreachable_store "Could not reach the claim store to renew a claim.", t)

unfoldable pub release : Bool → Timestamp → Claim → Table → Result (Unit {0}) × Table
unfolding unreachable_store update_where
release reachable now c t =
    if reachable
    then (ok tt, (update_where c.subject (holds c) (λ r. record r { expires_at = now }) t).0)
    else (
      unreachable_store
          "Could not reach the claim store to release a claim. It will lapse on its own when the lease expires.",
      t,
    )

-- The stored row is made into a claim, with the claim's own check, before it is tested for expiry.
unfoldable pub current : Bool → Timestamp → String → Table → Result (Option Claim)
unfolding unreachable_store read_row validate_claim has_expired_at make_token
current reachable now subject t =
    if reachable
    then elim (read_row subject t) [
      | none ↦ ok none
      | some row ↦ (do
        make_token row.fencing_token
        c ← validate_claim (to_claim subject row)
        ok (if has_expired_at c now then none else some c))
    ]
    else unreachable_store "Could not reach the claim store."
