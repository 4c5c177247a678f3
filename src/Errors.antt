-- ===== src/Errors.antt =====
-- The error taxonomy (src/taskcontrol/common/errors.py) and the exceptions that pass through the
-- code. An error keeps its code and its message; `details`, which only callers print, is left out.
use task_control.Prelude.{String, ◌≡◌, refl, Bool, true, false}

pub data ErrorCode : Type 0 where
  validation_failed domain_rule_violation not_authorised not_found : ErrorCode
  conflict configuration_invalid : ErrorCode
  transient_infrastructure_failure permanent_infrastructure_failure : ErrorCode

-- What a call may raise. The first constructor is `TaskControlError` with its subclasses, told
-- apart by their code; the next two are the plain exceptions of the ports; `unexpected` is any
-- other `Exception`, and `interrupted` a `BaseException` that is no `Exception`, such as
-- `KeyboardInterrupt`. `out_of_fuel` is raised by no code: it marks a loop of the model that
-- used up its fuel.
pub data Exception : Type 0 where
  error : ErrorCode → String → Exception
  claim_not_held lock_not_acquired : String → Exception
  unexpected interrupted out_of_fuel : Exception

pub data Result {ℓ} (A : Type ℓ) : Type ℓ where
  ok : A → Result A
  raise : Exception → Result A

infixl 5 ◌>>=◌ ◌>>◌
abbrev pub ◌>>=◌ {ℓ κ} : {A : Type ℓ} {B : Type κ} → Result A → (A → Result B) → Result B
ok a >>= f = f a
raise e >>= f = raise e

abbrev pub ◌>>◌ {ℓ κ} : {A : Type ℓ} {B : Type κ} → Result A → Result B → Result B
m >> k = m >>= λ _. k

abbrev pub validation_error : {A : Type 0} → String → Result A
validation_error m = raise (error validation_failed m)

abbrev pub domain_rule_violation_error : {A : Type 0} → String → Result A
domain_rule_violation_error m = raise (error domain_rule_violation m)

-- `if test: raise ...`
abbrev pub raise_if : Bool → ErrorCode → String → Result (Unit {0})
raise_if true c m = raise (error c m)
raise_if false c m = ok tt

-- whether `except TaskControlError` catches it
abbrev pub is_task_control_error : Exception → Bool
is_task_control_error (error _ _) = true
is_task_control_error _ = false

-- whether `except Exception` catches it
abbrev pub is_exception : Exception → Bool
is_exception interrupted = false
is_exception out_of_fuel = false
is_exception _ = true

-- whether `except (TransientInfrastructureError, PermanentInfrastructureError)` catches it
abbrev pub is_infrastructure_error : Exception → Bool
is_infrastructure_error (error transient_infrastructure_failure _) = true
is_infrastructure_error (error permanent_infrastructure_failure _) = true
is_infrastructure_error _ = false

pub Result-cases {ℓ} :
    {A : Type ℓ} (P : Type 0) (r : Result A)
    → ((a : A) → r ≡ ok a → P)
    → ((e : Exception) → r ≡ raise e → P)
    → P
Result-cases P (ok a) f g = f a refl
Result-cases P (raise e) f g = g e refl

pub >>=_cong {ℓ κ} :
    {A : Type ℓ} {B : Type κ} (r : Result A) {f g : A → Result B}
    → ((a : A) → f a ≡ g a)
    → (r >>= f) ≡ (r >>= g)
>>=_cong (ok a) h = h a
>>=_cong (raise e) h = refl

-- A call between two others may be counted to either.
pub >>=_assoc :
    {A B C : Type 0} (first : Result A) (middle : A → Result B) (last : B → Result C)
    → (first >>= λ a. middle a >>= last) ≡ (first >>= middle >>= last)
>>=_assoc (raise e) middle last = refl
>>=_assoc (ok a) middle last = refl
