-- ===== src/Claims/Claim.antt =====
-- `ClaimSubject`, `FencingToken` and `Claim` (src/taskcontrol/domain/claims/claim.py).
use task_control.Errors.{Result, ok, validation_failed, raise_if, ◌>>◌}
use task_control.Prelude.{
  ℕ, ◌-◌, ◌/◌, String, Bool, [], ◌∷◌, ltb, leb, str_eq, len, is_blank, concat,
}
use task_control.Values.{Timestamp, Duration, make_duration, microseconds_per_second}

abbrev pub max_subject_length : ℕ
max_subject_length = 200

abbrev pub max_owner_length : ℕ
max_owner_length = 200

-- `ClaimSubject(key)`; a subject is its key
unfoldable pub make_subject : String → Result String
make_subject key = do
  raise_if (is_blank key) validation_failed "A claim subject must not be empty."
  raise_if (ltb max_subject_length (len key)) validation_failed "Claim subject is too long."
  ok key

-- `ClaimSubject.for_task`
unfoldable pub task_subject : String → Result String
unfolding make_subject
task_subject task_id = make_subject (concat ("task" ∷ ":" ∷ task_id ∷ []))

-- `ClaimSubject.for_work_item`
unfoldable pub work_item_subject : String → Result String
unfolding make_subject
work_item_subject work_item_id = make_subject (concat ("work-item" ∷ ":" ∷ work_item_id ∷ []))

-- `FencingToken(value)`; a token is its value
unfoldable pub make_token : ℕ → Result ℕ
make_token value = do
  raise_if (ltb value 1) validation_failed "A fencing token must be a positive integer."
  ok value

-- `FencingToken.supersedes`
unfoldable pub supersedes : ℕ → ℕ → Bool
supersedes token other = ltb other token

pub record Claim : Type 0 where
  pub subject : String
  pub owner : String
  pub acquired_at : Timestamp
  pub expires_at : Timestamp
  pub fencing_token : ℕ

abbrev pub empty_lease_message : String
empty_lease_message = "A claim must expire after it was acquired."

-- `Claim.__post_init__`, run on every constructed value
unfoldable pub validate_claim : Claim → Result Claim
validate_claim c = do
  raise_if (is_blank c.owner) validation_failed
      "A claim must record who holds it. An anonymous claim cannot be safely released or renewed."
  raise_if (ltb max_owner_length (len c.owner)) validation_failed "Claim owner is too long."
  raise_if (leb c.expires_at c.acquired_at) validation_failed empty_lease_message
  ok c

unfoldable pub has_expired_at : Claim → Timestamp → Bool
has_expired_at c moment = leb c.expires_at moment

abbrev pub shortened_message : String
shortened_message =
    "Renewing a claim must extend it. A renewal that shortened the lease would make the subject reclaimable sooner than its holder expects."

unfoldable pub renewed_until : Claim → Timestamp → Result Claim
unfolding validate_claim
renewed_until c expires_at = do
  raise_if (leb expires_at c.expires_at) validation_failed shortened_message
  validate_claim (record c { expires_at = expires_at })

unfoldable pub is_held_by : Claim → String → Bool
is_held_by c owner = str_eq c.owner owner

-- The difference of two instants in whole seconds, rounded towards zero and floored at zero: the
-- subtraction stops at zero where the source takes the maximum.
unfoldable pub remaining_at : Claim → Timestamp → Result Duration
remaining_at c moment = make_duration ((c.expires_at - moment) / microseconds_per_second)
