-- ===== src/Scheduling/Eligibility.antt =====
-- What the conditions come to together, against the plain question whether each of them holds.
use task_control.Errors.{Result, ok}
use task_control.Execution.Reasons.{code_outcome, outcome_of_value}
use task_control.Execution.Vocabulary.{skipped}
use task_control.Prelude.{
  Bool, true, false, ◌&&◌, String, ◌≡◌, refl, ap, ◌∙◌, none, some, List, [], ◌∷◌, any, arith,
  if◌then◌else◌, str_eq, partition,
}
use task_control.Scheduling.Calendars.{Calendar, classify, is_open}
use task_control.Scheduling.Conditions.{
  ConditionDecision, allows, validate_decision, allowing, denying, blocking_decision,
  outcome_of_decision, eligibility_outcome, EnabledSwitch, Texts, evaluate_switch,
  evaluate_calendar, evaluate_weekdays, evaluate_environments, skipped_calendar_closed,
  skipped_switch_disabled, skipped_environment_not_allowed, skipped_window_closed,
}
use task_control.Scheduling.Schedules.{Weekday, Date, from_date_object, includes}

-- A condition answers, allows where `b` is true, and skips where it is false.
record Decides (r : Result ConditionDecision) (b : Bool) : Type 0 where
  pub decision : ConditionDecision
  pub answered : r ≡ ok decision
  pub allows_where : allows decision ≡ b
  pub skips : b ≡ false → outcome_of_decision decision ≡ some skipped

choice-Decides :
    (b : Bool) (name code granted refused : String)
    → code_outcome (record { value = code }) ≡ some skipped
    → Decides (if b then allowing name granted else denying name code refused) b
unfolding validate_decision
choice-Decides true name code granted refused h = record {
  decision = _;
  answered = refl;
  allows_where = refl;
  skips = λ e. cc;
}
choice-Decides false name code granted refused h = record {
  decision = _;
  answered = refl;
  allows_where = refl;
  skips = λ e. h;
}

first_refuses :
    (d : ConditionDecision) (ds : List ConditionDecision)
    → allows d ≡ false
    → eligibility_outcome (d ∷ ds) ≡ some (outcome_of_decision d)
unfolding eligibility_outcome blocking_decision
first_refuses d ds h = ground (arith, h)

first_allows :
    (d : ConditionDecision) (ds : List ConditionDecision)
    → allows d ≡ true
    → eligibility_outcome (d ∷ ds) ≡ eligibility_outcome ds
unfolding eligibility_outcome blocking_decision
first_allows d ds h = ground (arith, h)

-- A condition in front of others.
in_front :
    {r : Result ConditionDecision} {b : Bool} (d : Decides r b) (ds : List ConditionDecision)
    (rest : Bool)
    → eligibility_outcome ds ≡ (if rest then none else some (some skipped))
    → eligibility_outcome (d.decision ∷ ds) ≡ (if b && rest then none else some (some skipped))
in_front {b = true} d ds rest h = first_allows d.decision ds d.allows_where ∙ h
in_front {b = false} d ds rest h =
    first_refuses d.decision ds d.allows_where ∙ ap some (d.skips refl)

nothing_refuses : eligibility_outcome [] ≡ none
unfolding eligibility_outcome
nothing_refuses = refl

last :
    {r : Result ConditionDecision} {b : Bool} (d : Decides r b)
    → eligibility_outcome (d.decision ∷ []) ≡ (if b then none else some (some skipped))
last {b = true} d = in_front d [] true nothing_refuses
last {b = false} d = in_front d [] true nothing_refuses

skipping_codes :
    (code_outcome (record { value = skipped_switch_disabled }) ≡ some skipped)
    × (code_outcome (record { value = skipped_calendar_closed }) ≡ some skipped)
    × (code_outcome (record { value = skipped_window_closed }) ≡ some skipped)
    × (code_outcome (record { value = skipped_environment_not_allowed }) ≡ some skipped)
unfolding code_outcome outcome_of_value partition
skipping_codes = (refl, refl, refl, refl)

-- The switch, the calendar, the weekdays and the environments always answer, and together they have no
-- outcome, which lets the work run, exactly where the switch is on, the calendar is open on the
-- day, its weekday is permitted and so is the environment. In every other case, whichever of them
-- refuses first, the outcome is "skipped".
pub eligibility_exact :
    (texts : Texts) (switch : EnabledSwitch) (calendar : Calendar) (weekdays : List Weekday)
    (environments : List String) (day : Date) (environment : String)
    → (d1 d2 d3 d4 : ConditionDecision) × (evaluate_switch texts switch ≡ ok d1)
      × (evaluate_calendar texts calendar day ≡ ok d2)
      × (evaluate_weekdays texts weekdays day ≡ ok d3)
      × (evaluate_environments texts environments environment ≡ ok d4)
      × (eligibility_outcome (d1 ∷ d2 ∷ d3 ∷ d4 ∷ []) ≡ (
          if switch.enabled
            && (is_open (classify calendar day).classification
                && (includes weekdays (from_date_object day)
                    && any (str_eq environment) environments))
          then none
          else some (some skipped)))
unfolding evaluate_switch evaluate_calendar evaluate_weekdays evaluate_environments
eligibility_exact texts switch calendar weekdays environments day environment =
    let open_day = is_open (classify calendar day).classification in
    let right_day = includes weekdays (from_date_object day) in
    let right_place = any (str_eq environment) environments in
    let (a, b, c, d) = skipping_codes in
    let one = choice-Decides switch.enabled _ _ _ _ a in
    let two = choice-Decides open_day _ _ _ _ b in
    let three = choice-Decides right_day _ _ _ _ c in
    let four = choice-Decides right_place _ _ _ _ d in
    (
      one.decision,
      two.decision,
      three.decision,
      four.decision,
      one.answered,
      two.answered,
      three.answered,
      four.answered,
      in_front one (two.decision ∷ three.decision ∷ four.decision ∷ [])
          (open_day && (right_day && right_place))
          (in_front two (three.decision ∷ four.decision ∷ []) (right_day && right_place)
            (in_front three (four.decision ∷ []) right_place (last four))),
    )
