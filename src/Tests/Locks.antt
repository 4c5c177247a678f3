-- ===== src/Tests/Locks.antt =====
-- Both overlap locks, for one task.
use task_control.Claims.Claim.{task_subject}
use task_control.Claims.Operations.{IsUsableOwner, IsFree}
use task_control.Claims.Store.{read_row}
use task_control.Errors.{ok}
use task_control.Locks.Durable.{DurableState, acquire}
use task_control.Locks.Handles.{process_local_exact}
use task_control.Locks.Leasing.{IsRoundTrip, acquire_then_release}
use task_control.Locks.ProcessLocal
use task_control.Locks.ProcessLocal.{Held, get, lock_key, is_held, holder_of}
use task_control.Prelude.{
  String, ◌≡◌, ◌≢◌, refl, true, false, some, none, [], ◌∷◌, arith, is_blank, len, concat,
}
use task_control.Runtime.World.{LockHandle}
use task_control.Values.{Duration}

abbrev by_bob : Held
by_bob = ("task:t1", "bob") ∷ []

abbrev alices : LockHandle
alices = record { key = "task:t1"; owner = "alice" }

process_local_exact_example :
    ((is_held "t2" by_bob ≡ false
        → ((ProcessLocal.acquire "t2" "ann" by_bob).0
            ≡ ok (some (record { key = lock_key "t2"; owner = "ann" })))
          × (holder_of "t2" (ProcessLocal.acquire "t2" "ann" by_bob).1 ≡ some "ann"))
      × (is_held "t2" by_bob ≡ true → ProcessLocal.acquire "t2" "ann" by_bob ≡ (ok none, by_bob))
      × (◌≢◌ {A = String} "task:t1" (lock_key "t2")
          → get "task:t1" (ProcessLocal.acquire "t2" "ann" by_bob).1 ≡ get "task:t1" by_bob))
    × (((ProcessLocal.release alices by_bob).0 ≡ ok tt)
        × (get "task:t1" by_bob ≡ some "alice"
            → get "task:t1" (ProcessLocal.release alices by_bob).1 ≡ none)
        × (get "task:t1" by_bob ≢ some "alice"
            → ProcessLocal.release alices by_bob ≡ (ok tt, by_bob))
        × (◌≢◌ {A = String} "task:t1" "task:t1"
            → get "task:t1" (ProcessLocal.release alices by_bob).1 ≡ get "task:t1" by_bob))
process_local_exact_example = process_local_exact "t2" "ann" alices by_bob "task:t1"

abbrev hour : Duration
hour = record { seconds = 3600 }

abbrev unclaimed : DurableState
unclaimed = record { claims = []; held = []; calls = 0 }

named : task_subject "t1" ≡ ok "task:t1"
unfolding task_subject len is_blank concat
named = refl

ann-IsUsableOwner : IsUsableOwner "ann"
unfolding is_blank len
ann-IsUsableOwner = (refl, omega arith)

unclaimed-IsFree : IsFree (read_row "task:t1" []) 0
unfolding read_row
unclaimed-IsFree = tt

acquire_then_release_example :
    IsRoundTrip hour
      (λ n. n)
      (λ _. true)
      "task:t1"
      "ann"
      unclaimed
      (acquire hour (λ n. n) (λ _. true) "t1" "ann" unclaimed)
acquire_then_release_example =
    acquire_then_release hour (λ n. n) (λ _. true) (λ _. refl) (omega arith) "t1" "task:t1" "ann"
      named ann-IsUsableOwner unclaimed unclaimed-IsFree
