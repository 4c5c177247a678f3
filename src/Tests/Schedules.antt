-- ===== src/Tests/Schedules.antt =====
-- A quarter of an hour, a calendar with one holiday, and the conditions on a Monday.
use task_control.Errors.{ok}
use task_control.Execution.Vocabulary.{skipped}
use task_control.Prelude.{
  ◌/◌, ℕ, true, false, ◌&&◌, ◌≡◌, ◌≤◌, ◌<◌, refl, none, some, [], ◌∷◌, any, arith, if◌then◌else◌,
  str_eq, show, concat, is_blank,
}
use task_control.Scheduling.Calendars.{
  Calendar, classify, is_open, verdict, holiday, working_day, weekend, validate_calendar,
}
use task_control.Scheduling.Conditions.{
  ConditionDecision, EnabledSwitch, Texts, evaluate_switch, evaluate_calendar, evaluate_weekdays,
  evaluate_environments, eligibility_outcome,
}
use task_control.Scheduling.Eligibility.{eligibility_exact}
use task_control.Scheduling.Intervals.{occurrence, series, preview-series}
use task_control.Scheduling.Schedules.{
  FloatQuotient, monday, from_date_object, includes, working_week, IntervalSchedule,
  validate_interval, interval_occurrences, preview_occurrences, WeekdayTimeSchedule,
  next_weekday_after, validate_weekday_schedule,
}
use task_control.Values.{is_zero}

abbrev quarter : IntervalSchedule
quarter = record { every = record { seconds = 900 }; anchor = 0 }

abbrev exact_quotient : FloatQuotient
exact_quotient e d = e / d

quarter_valid : validate_interval quarter ≡ ok quarter
unfolding validate_interval is_zero
quarter_valid = refl

preview-series_example :
    (n : ℕ) × (preview_occurrences (interval_occurrences exact_quotient quarter) 1801000000 3
      ≡ ok (series quarter n 3))
    × (1801000000 < occurrence quarter n)
    × ((m : ℕ) → 1801000000 < occurrence quarter m → occurrence quarter n ≤ occurrence quarter m)
preview-series_example =
    preview-series exact_quotient (λ e d whole_e whole_d pos. refl) quarter quarter_valid 1801000000
      3 (1801, refl) (omega arith) (omega arith)

-- the eighth day is a Monday, as the first is
abbrev bank : Calendar
bank = record {
  calendar_id = "c1";
  name = "bank";
  slug = "bank";
  timezone = "UTC";
  revision = 1;
  working_weekdays = working_week;
  holidays = (8, "New Year") ∷ [];
  special_working_days = [];
  early_closes = [];
  source = "";
}

bank_valid : validate_calendar bank ≡ ok bank
unfolding validate_calendar is_blank
bank_valid = refl

closed_on_holiday : classify bank 8 ≡ verdict bank 8 holiday (some "New Year")
unfolding classify
closed_on_holiday = refl

open_on_monday : classify bank 1 ≡ verdict bank 1 working_day none
unfolding classify
open_on_monday = refl

closed_on_sunday : classify bank 7 ≡ verdict bank 7 weekend none
unfolding classify
closed_on_sunday = refl

abbrev noon_on_mondays : WeekdayTimeSchedule
noon_on_mondays = record {
  at = record { local_date = λ moment. moment; localised = λ day. day; exists_on = λ day. true };
  weekdays = monday ∷ [];
  skip_nonexistent_times = false;
}

noon_on_mondays_valid : validate_weekday_schedule noon_on_mondays ≡ ok noon_on_mondays
unfolding validate_weekday_schedule
noon_on_mondays_valid = refl

next_monday : next_weekday_after noon_on_mondays 1 ≡ some 8
unfolding next_weekday_after
next_monday = refl

abbrev plain : Texts
plain = record {
  isoformat = show;
  quoted = λ t. t;
  weekday_value = λ _. "a day";
  joined_days = λ _. "some days";
  joined = concat;
}

abbrev maintenance : EnabledSwitch
maintenance = record { name = "maintenance"; enabled = false; reason = "" }

eligibility_exact_example :
    (d1 d2 d3 d4 : ConditionDecision) × (evaluate_switch plain maintenance ≡ ok d1)
    × (evaluate_calendar plain bank 1 ≡ ok d2)
    × (evaluate_weekdays plain working_week 1 ≡ ok d3)
    × (evaluate_environments plain ("production" ∷ []) "production" ≡ ok d4)
    × (eligibility_outcome (d1 ∷ d2 ∷ d3 ∷ d4 ∷ []) ≡ (
        if false
          && (is_open (classify bank 1).classification
              && (includes working_week (from_date_object 1)
                  && any (str_eq "production") ("production" ∷ [])))
        then none
        else some (some skipped)))
eligibility_exact_example =
    eligibility_exact plain maintenance bank working_week ("production" ∷ []) 1 "production"
