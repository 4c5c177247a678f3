-- ===== src/Claims/Schedule.antt =====
-- Any number of processes over one claim table, interleaved in any order. A process reads its clock
-- before its statements reach the database, so an operation carries an instant `now` at or before
-- the time of the step, and `try_acquire` carries the row that its read answered, whatever has
-- happened since: no assumption ties it to the table as it is now.
use native.Mathlib.Decide.{ℕ_discrete}
use mathlib.Core.Logic.{ite}
use task_control.Claims.Claim.{Claim}
use task_control.Claims.Store.{Row, Table, insert_or_take_over, renew, release}
use task_control.Errors.{Result, ok, raise}
use task_control.Prelude.{ℕ, ◌≤◌, String, Bool, ◌≡◌, Option, none, some, []}
use task_control.Values.{Timestamp, Duration, add_duration}

-- `held i` is the claim that process `i` believes it holds, with the expiry that it was told.
pub record System : Type 0 where
  pub table : Table
  pub time : Timestamp
  pub held : ℕ → Option Claim

abbrev pub init : System
init = record { table = []; time = 0; held = λ _. none }

abbrev pub update : (ℕ → Option Claim) → ℕ → Option Claim → ℕ → Option Claim
update held i c j = ite (ℕ_discrete i j) c (held j)

-- after `try_acquire`: what was held before is forgotten only for a new claim
abbrev pub after_acquire : (ℕ → Option Claim) → ℕ → Result (Option Claim) → ℕ → Option Claim
after_acquire held i (ok (some c)) = update held i (some c)
after_acquire held i (ok none) = held
after_acquire held i (raise e) = held

-- after `renew`: where it raises, the process still believes what it did
abbrev pub after_renew : Claim → Result Claim → Claim
after_renew held (ok c) = c
after_renew held (raise e) = held

pub data Step (s : System) : System → Type 0 where
  waits : (time : Timestamp) → s.time ≤ time → Step s (record s { time = time })
  acquires :
      (i : ℕ) (read : Option Row) (subject owner : String) (now expires_at : Timestamp)
      → now ≤ s.time
      → Step s (record s {
        table = (insert_or_take_over read subject owner now expires_at s.table).1;
        held =
            after_acquire s.held i
              (insert_or_take_over read subject owner now expires_at s.table).0;
      })
  renews :
      (i : ℕ) (c : Claim) (reachable : Bool) (now : Timestamp) (lease : Duration)
      → now ≤ s.time
      → s.held i ≡ some c
      → Step s (record s {
        table = (renew reachable now c lease s.table).1;
        held = update s.held i (some (after_renew c (renew reachable now c lease s.table).0));
      })
  -- a process that releases its claim does not rely on it any more, whatever the answer
  releases :
      (i : ℕ) (c : Claim) (reachable : Bool) (now : Timestamp)
      → now ≤ s.time
      → s.held i ≡ some c
      → Step s
          (record s { table = (release reachable now c s.table).1; held = update s.held i none })
  -- a process dies, or forgets its claim
  crashes : (i : ℕ) → Step s (record s { held = update s.held i none })

pub data Reach (s : System) : System → Type 0 where
  here : Reach s s
  next : {t u : System} → Reach s t → Step t u → Reach s u

-- The renewal asks for an expiry that is not before the one that its process believes in.
abbrev pub Lengthens : {s t : System} → Step s t → Type 0
Lengthens (renews i c reachable now lease early mine) = c.expires_at ≤ add_duration now lease
Lengthens _ = Unit

-- No renewal on the way shortens a claim.
abbrev pub NeverShortens : {s t : System} → Reach s t → Type 0
NeverShortens here = Unit
NeverShortens (next r step) = NeverShortens r × Lengthens step
