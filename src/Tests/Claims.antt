-- ===== src/Tests/Claims.antt =====
-- Two processes that want one subject.
use native.Mathlib.Decide.{ℕ_discrete}
use task_control.Claims.Claim.{Claim, validate_claim, shortened_message}
use task_control.Claims.Exclusion.{mutual_exclusion}
use task_control.Claims.Fencing.{tokens_increase}
use task_control.Claims.Leases.{renew_exact, renew_shortens, release_exact}
use task_control.Claims.Operations.{IsUsableOwner, IsFree, granted, try_acquire_exact}
use task_control.Claims.Schedule.{System, after_acquire, acquires, waits, Reach, here, next, init}
use task_control.Claims.Store.{
  Row, Table, read_row, update_where, holds, not_held_message, try_acquire, insert_or_take_over,
  renew, release,
}
use task_control.Errors.{ok, raise, error, validation_failed, claim_not_held}
use task_control.Prelude.{
  ℕ, String, ◌≡◌, refl, len, is_blank, ◌≢◌, ◌⊎◌, ◌≤◌, ◌<◌, true, false, Option, some, none, [], ◌∷◌,
  arith,
}
use task_control.Values.{Timestamp, Duration, add_duration}

abbrev minute : Duration
minute = record { seconds = 60 }

abbrev alice_row : Row
alice_row = record { owner = "alice"; acquired_at = 5; expires_at = 100; fencing_token = 4 }

abbrev alice : Claim
alice = record {
  subject = "task:t1";
  owner = "alice";
  acquired_at = 5;
  expires_at = 100;
  fencing_token = 4;
}

abbrev taken : Table
taken = ("task:t1", alice_row) ∷ []

alice-IsUsableOwner : IsUsableOwner "alice"
unfolding is_blank len
alice-IsUsableOwner = (refl, omega arith)

stored : read_row "task:t1" taken ≡ some alice_row
unfolding read_row
stored = refl

try_acquire_exact_example :
    (IsFree (read_row "task:t1" taken) 200
      → (try_acquire true 200 "task:t1" "alice" minute taken).0
        ≡ ok (
            some
              (granted "task:t1" "alice" 200 (add_duration 200 minute) (read_row "task:t1" taken))))
    × (¬ IsFree (read_row "task:t1" taken) 200
        → try_acquire true 200 "task:t1" "alice" minute taken ≡ (ok none, taken))
try_acquire_exact_example =
    try_acquire_exact 200 "task:t1" "alice" minute taken alice-IsUsableOwner (omega arith)

abbrev extended : Timestamp
extended = add_duration 50 minute

renew_exact_example :
    (IsUsableOwner "alice"
      → 5 < 100
      → holds alice alice_row ≡ true
      → 50 < 100
      → 100 < extended
      → ((renew true 50 alice minute taken).0 ≡ ok (record alice { expires_at = extended }))
        × (read_row "task:t1" (renew true 50 alice minute taken).1
            ≡ some (record alice_row { expires_at = extended }))
        × ((j : String)
            → j ≢ "task:t1"
            → read_row j (renew true 50 alice minute taken).1 ≡ read_row j taken))
    × ((holds alice alice_row ≡ false) ⊎ (100 ≤ 50)
        → renew true 50 alice minute taken
          ≡ (raise (claim_not_held (not_held_message alice)), taken))
renew_exact_example = renew_exact 50 alice minute taken alice_row stored

abbrev no_time : Duration
no_time = record { seconds = 0 }

shorter : add_duration 50 no_time ≤ 100
unfolding add_duration
shorter = omega arith

renew_shortens_example :
    ((renew true 50 alice no_time taken).0 ≡ raise (error validation_failed shortened_message))
    × (read_row "task:t1" (renew true 50 alice no_time taken).1
        ≡ some (record alice_row { expires_at = add_duration 50 no_time }))
renew_shortens_example =
    renew_shortens 50 alice no_time taken alice_row stored refl (omega arith) shorter

release_exact_example :
    ((release true 50 alice taken).0 ≡ ok tt)
    × (holds alice alice_row ≡ true
        → (read_row "task:t1" (release true 50 alice taken).1
            ≡ some (record alice_row { expires_at = 50 }))
          × ((j : String)
              → j ≢ "task:t1"
              → read_row j (release true 50 alice taken).1 ≡ read_row j taken))
    × (holds alice alice_row ≡ false → release true 50 alice taken ≡ (ok tt, taken))
release_exact_example = release_exact 50 alice taken alice_row stored

abbrev with_alice : System
with_alice = record {
  table = (insert_or_take_over none "task:t1" "alice" 0 100 []).1;
  time = 0;
  held = after_acquire (λ _. none) 0 (insert_or_take_over none "task:t1" "alice" 0 100 []).0;
}

abbrev lapsed : System
lapsed = record with_alice { time = 200 }

abbrev alice_read : Option Row
alice_read = some (record { owner = "alice"; acquired_at = 0; expires_at = 100; fencing_token = 1 })

abbrev with_bob : System
with_bob = record lapsed {
  table = (insert_or_take_over alice_read "task:t1" "bob" 150 300 lapsed.table).1;
  held =
      after_acquire lapsed.held 1
        (insert_or_take_over alice_read "task:t1" "bob" 150 300 lapsed.table).0;
}

abbrev bob : Claim
bob = record {
  subject = "task:t1";
  owner = "bob";
  acquired_at = 150;
  expires_at = 300;
  fencing_token = 2;
}

takeover : Reach init with_bob
takeover =
    next
      (next (next here (acquires 0 none "task:t1" "alice" 0 100 (omega arith)))
        (waits 200 (omega arith)))
      (acquires 1 alice_read "task:t1" "bob" 150 300 (omega arith))

bob_holds : with_bob.held 1 ≡ some bob
unfolding insert_or_take_over validate_claim update_where read_row len is_blank ℕ_discrete
bob_holds = refl

mutual_exclusion_example : ◌≡◌ {A = ℕ} 1 1
unfolding takeover
mutual_exclusion_example =
    mutual_exclusion takeover (((tt, tt), tt), tt) 1 1 bob bob bob_holds bob_holds refl
      (omega arith) (omega arith)

abbrev alice_first : Row
alice_first = record { owner = "alice"; acquired_at = 0; expires_at = 100; fencing_token = 1 }

alice_stored : read_row "task:t1" with_alice.table ≡ some alice_first
unfolding insert_or_take_over validate_claim read_row len is_blank
alice_stored = refl

bob_granted :
    (insert_or_take_over alice_read "task:t1" "bob" 150 300 lapsed.table).0 ≡ ok (some bob)
unfolding insert_or_take_over validate_claim update_where read_row len is_blank
bob_granted = refl

tokens_increase_example : 1 < 2
tokens_increase_example =
    tokens_increase {s = with_alice} (next here (waits 200 (omega arith))) "task:t1" alice_first
      alice_stored alice_read "bob" 150 300 bob bob_granted
