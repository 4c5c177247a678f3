-- ===== src/Execution/Namespaces.antt =====
-- What a reason code that was accepted is worth (src/taskcontrol/domain/execution/vocabulary.py).
use task_control.Errors.{ok}
use task_control.Execution.Reasons.{
  ReasonCode, make_reason_code, code_outcome, matches, outcome_of_value, is_permitted_namespace,
  all_outcomes,
}
use task_control.Execution.Vocabulary.{
  ExecutionOutcome, succeeded, outcome_value, permits_reason_code,
}
use task_control.Prelude.{
  String, ◌≡◌, ◌↔◌, refl, Bool, true, ◌&&◌, some, List, [], ◌∷◌, arith, any, str_eq, eq_iff,
  eq_refl, partition, Bool-cases, inl, inr, ap, sym, ◌∙◌,
}

any_found : {A : Type 0} (p : A → Bool) (xs : List A) → any p xs ≡ true → (x : A) × (p x ≡ true)
any_found p [] h = cc
any_found p (x ∷ xs) h = elim (Bool-cases (p x)) [
  | inl here ↦ (x, here)
  | inr not_here ↦ any_found p xs (rw not_here at h)
]

outcome_of_value-outcome_value :
    (o : ExecutionOutcome) → outcome_of_value (outcome_value o) ≡ some o
unfolding outcome_of_value
outcome_of_value-outcome_value succeeded = refl
outcome_of_value-outcome_value _ = refl

outcome_value-injective : (o p : ExecutionOutcome) → outcome_value o ≡ outcome_value p → o ≡ p
outcome_value-injective o p h =
    cc (ap outcome_of_value h, outcome_of_value-outcome_value o, outcome_of_value-outcome_value p)

matches_iff :
    (c : ReasonCode) (o p : ExecutionOutcome)
    → code_outcome c ≡ some o
    → (matches c p ≡ true) ↔ (p ≡ o)
unfolding matches
matches_iff c o p h = rw h (
    let same = eq_iff (outcome_value o) (outcome_value p) in
    (λ m. sym (outcome_value-injective o p (same.0 m)), λ e. rw e (eq_refl (outcome_value o))))

permitted_namespace :
    (name : String)
    → is_permitted_namespace name ≡ true
    → (o : ExecutionOutcome) × (name ≡ outcome_value o) × (permits_reason_code o ≡ true)
unfolding is_permitted_namespace
permitted_namespace name h =
    let (o, found) =
      any_found (λ o. permits_reason_code o && str_eq name (outcome_value o)) all_outcomes h in
    (o, ground (arith, eq_iff name (outcome_value o)), ground arith)

accepted_namespace :
    (v : String) {c : ReasonCode}
    → make_reason_code v ≡ ok c
    → (c.value ≡ v) × (is_permitted_namespace (partition b'.' v).0 ≡ true)
unfolding make_reason_code
accepted_namespace v h = ground arith

-- A reason code that construction accepts keeps its text, and its `outcome` is a member of the
-- enumeration that permits reason codes; it matches that outcome and no other.
pub accepted_code_outcome :
    (v : String) {c : ReasonCode}
    → make_reason_code v ≡ ok c
    → (c.value ≡ v)
      × ((o : ExecutionOutcome) × (code_outcome c ≡ some o)
          × (permits_reason_code o ≡ true)
          × ((p : ExecutionOutcome) → (matches c p ≡ true) ↔ (p ≡ o)))
unfolding code_outcome
accepted_code_outcome v {c} h =
    let (same, permitted) = accepted_namespace v h in
    let (o, name, permits) = permitted_namespace (partition b'.' v).0 permitted in
    let found : code_outcome c ≡ some o =
      ap (λ t. outcome_of_value (partition b'.' t).0) same
      ∙ (ap outcome_of_value name ∙ outcome_of_value-outcome_value o) in
    (same, (o, found, permits, λ p. matches_iff c o p found))
