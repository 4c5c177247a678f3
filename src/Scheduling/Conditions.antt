-- ===== src/Scheduling/Conditions.antt =====
-- Run conditions and what they come to together (src/taskcontrol/domain/scheduling/conditions.py). The
-- evidence of a decision, which is only displayed, is left out.
use task_control.Errors.{Result, ok, raise_if, validation_failed, ◌>>◌}
use task_control.Execution.Reasons.{ReasonCode, code_outcome}
use task_control.Execution.Vocabulary.{ExecutionOutcome, condition_error, skipped}
use task_control.Prelude.{
  Bool, true, false, not, ◌&&◌, String, Option, none, some, List, [], ◌∷◌, any, is_some, is_empty,
  length, if◌then◌else◌, concat, show, str_eq,
}
use task_control.Scheduling.Calendars.{Calendar, classify, is_open, explain_day, reason_text}
use task_control.Scheduling.Schedules.{Weekday, Date, from_date_object, includes}

pub data ConditionVerdict : Type 0 where
  allow deny verdict_error : ConditionVerdict

pub record ConditionDecision : Type 0 where
  pub verdict : ConditionVerdict
  pub condition_name : String
  pub reason_code : Option ReasonCode
  pub explanation : String

abbrev pub is_allow : ConditionVerdict → Bool
is_allow allow = true
is_allow _ = false

-- `ConditionDecision.allows`
abbrev pub allows : ConditionDecision → Bool
allows d = is_allow d.verdict

unfoldable pub validate_decision : ConditionDecision → Result ConditionDecision
validate_decision d =
    raise_if (not (allows d) && not (is_some d.reason_code)) validation_failed
      "A condition that denies or errors must supply a reason code. Without one, the resulting skip cannot be explained."
    >> ok d

abbrev pub allowing : String → String → Result ConditionDecision
unfolding validate_decision
allowing name explanation = validate_decision (record {
  verdict = allow;
  condition_name = name;
  reason_code = none;
  explanation = explanation;
})

abbrev pub denying : String → String → String → Result ConditionDecision
unfolding validate_decision
denying name code explanation = validate_decision (record {
  verdict = deny;
  condition_name = name;
  reason_code = some (record { value = code });
  explanation = explanation;
})

abbrev pub skipped_calendar_closed : String
skipped_calendar_closed = "skipped.calendar_closed"

abbrev pub skipped_switch_disabled : String
skipped_switch_disabled = "skipped.switch_disabled"

abbrev pub skipped_environment_not_allowed : String
skipped_environment_not_allowed = "skipped.environment_not_allowed"

abbrev pub skipped_window_closed : String
skipped_window_closed = "skipped.window_closed"

-- `EligibilityResult` and `combine`: the decisions, in order
abbrev pub EligibilityResult : Type 0
EligibilityResult = List ConditionDecision

unfoldable pub allowed : EligibilityResult → Bool
allowed [] = true
allowed (d ∷ ds) = let rest = allowed ds in if allows d then rest else false

unfoldable pub blocking_decision : EligibilityResult → Option ConditionDecision
blocking_decision [] = none
blocking_decision (d ∷ ds) = let rest = blocking_decision ds in if allows d then rest else some d

-- `decision.reason_code.outcome if decision.reason_code else SKIPPED`; the inner `none` stands for
-- the ValueError of a code whose namespace is no outcome
abbrev pub denied_outcome : Option ReasonCode → Option ExecutionOutcome
denied_outcome none = some skipped
denied_outcome (some code) = code_outcome code

abbrev pub outcome_of_decision : ConditionDecision → Option ExecutionOutcome
outcome_of_decision d = elim d.verdict [
  | verdict_error ↦ some condition_error
  | _ ↦ denied_outcome d.reason_code
]

-- `EligibilityResult.outcome`: the outer `none` is Python's `None`
unfoldable pub eligibility_outcome : EligibilityResult → Option (Option ExecutionOutcome)
unfolding blocking_decision
eligibility_outcome ds = elim (blocking_decision ds) [
  | none ↦ none
  | some d ↦ some (outcome_of_decision d)
]

-- `EligibilityResult.explain`
unfoldable pub explain_eligibility : EligibilityResult → String
unfolding blocking_decision
explain_eligibility ds = elim (blocking_decision ds) [
  | none ↦ concat ("All " ∷ show (length ds) ∷ " run conditions allowed execution." ∷ [])
  | some d ↦ d.explanation
]

pub record EnabledSwitch : Type 0 where
  pub name : String
  pub enabled : Bool
  pub reason : String

-- `isoformat`, `repr`, the names of the weekdays and the sorted, joined texts are parameters.
pub record Texts : Type 0 where
  pub isoformat : Date → String
  pub quoted : String → String
  pub weekday_value : Weekday → String
  pub joined_days : List Weekday → String
  pub joined : List String → String

module _ (texts : Texts) where
  -- `EnabledSwitch.evaluate`
  unfoldable pub evaluate_switch : EnabledSwitch → Result ConditionDecision
  evaluate_switch s =
      let name = concat ("switch:" ∷ s.name ∷ []) in
      if s.enabled
      then allowing name (concat ("Switch " ∷ texts.quoted s.name ∷ " is enabled." ∷ []))
      else denying name skipped_switch_disabled (
          concat (
            "Switch "
            ∷ texts.quoted s.name
            ∷ " is disabled"
            ∷ reason_text (some s.reason)
            ∷ "."
            ∷ []))

  -- `CalendarOpenCondition.evaluate`
  unfoldable pub evaluate_calendar : Calendar → Date → Result ConditionDecision
  unfolding classify explain_day
  evaluate_calendar calendar day =
      let v = classify calendar day in
      let name = concat ("calendar:" ∷ calendar.slug ∷ []) in
      let explanation = explain_day texts.isoformat texts.quoted v in
      if is_open v.classification
      then allowing name explanation
      else denying name skipped_calendar_closed explanation

  -- `AllowedWeekdaysCondition.evaluate`
  unfoldable pub evaluate_weekdays : List Weekday → Date → Result ConditionDecision
  unfolding includes
  evaluate_weekdays weekdays day =
      let weekday = texts.weekday_value (from_date_object day) in
      if includes weekdays (from_date_object day)
      then allowing "allowed_weekdays"
          (concat (texts.isoformat day ∷ " is a " ∷ weekday ∷ ", which is permitted." ∷ []))
      else denying "allowed_weekdays" skipped_window_closed (
          concat (
            texts.isoformat day
            ∷ " is a "
            ∷ weekday
            ∷ "; this task runs only on "
            ∷ texts.joined_days weekdays
            ∷ "."
            ∷ []))

  -- `AllowedEnvironmentsCondition.evaluate`
  unfoldable pub evaluate_environments : List String → String → Result ConditionDecision
  evaluate_environments environments environment =
      if any (str_eq environment) environments
      then allowing "allowed_environments"
          (concat ("Environment " ∷ texts.quoted environment ∷ " is permitted." ∷ []))
      else denying "allowed_environments" skipped_environment_not_allowed (
          concat (
            "Environment "
            ∷ texts.quoted environment
            ∷ " is not permitted; this task runs only in "
            ∷ texts.joined environments
            ∷ "."
            ∷ []))

-- `AllowedWeekdaysCondition.__post_init__`
unfoldable pub validate_weekdays : List Weekday → Result (List Weekday)
validate_weekdays weekdays =
    raise_if (is_empty weekdays) validation_failed
      "An allowed-weekdays condition must permit at least one day, or it would deny every execution."
    >> ok weekdays

-- `AllowedEnvironmentsCondition.__post_init__`
unfoldable pub validate_environments : List String → Result (List String)
validate_environments environments =
    raise_if (is_empty environments) validation_failed
      "An allowed-environments condition must permit at least one environment."
    >> ok environments
