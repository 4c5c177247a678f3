-- ===== src/Claims/Granting.antt =====
-- The row behind a granted claim (src/taskcontrol/adapters/persistence/claim_store.py).
use task_control.Claims.Claim.{Claim}
use task_control.Claims.Effects.{row_of, acquire_effect}
use task_control.Claims.Schedule.{after_acquire}
use task_control.Claims.Store.{Table, read_row, try_acquire}
use task_control.Errors.{ok}
use task_control.Prelude.{String, ◌≡◌, sym, ap, ◌∙◌, true, none, some, arith, eq_refl, inl, inr}
use task_control.Values.{Timestamp, Duration, add_duration}

pub granted-row :
    (now : Timestamp) (subject owner : String) (lease : Duration) (t : Table) (c : Claim)
    → (try_acquire true now subject owner lease t).0 ≡ ok (some c)
    → read_row subject (try_acquire true now subject owner lease t).1 ≡ some (row_of c)
unfolding try_acquire
granted-row now subject owner lease t c h =
    elim (acquire_effect (read_row subject t) subject owner now (add_duration now lease) t) [
      | inl (same, _) ↦
          let forgets : after_acquire (λ _. none) 0 (ok (some c)) 0 ≡ none =
            ap (λ r. after_acquire (λ _. none) 0 r 0) (sym h)
            ∙ ap (λ f. f 0) (same (λ _. none) 0) in
          ground arith
      | inr (d, e, g) ↦ ground (arith, eq_refl subject, g.reads subject)
    ]
