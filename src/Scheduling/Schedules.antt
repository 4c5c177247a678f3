-- ===== src/Scheduling/Schedules.antt =====
-- Weekdays, misfires, previews and the schedules (src/taskcontrol/domain/scheduling/schedules.py),
-- less the cron expressions. A date is its proleptic ordinal, as `date.toordinal` gives it; what
-- `zoneinfo` does is a parameter.
use task_control.Errors.{Result, ok, raise_if, validation_failed, ◌>>◌}
use task_control.Prelude.{
  ℕ, zero, suc, ◌+◌, ◌-◌, ◌*◌, ◌%◌, ltb, ◌==◌, Bool, true, false, not, ◌&&◌, Option, none, some,
  List, [], ◌∷◌, any, is_empty, if◌then◌else◌,
}
use task_control.Values.{Timestamp, Duration, is_zero, microseconds_per_second}

pub data Weekday : Type 0 where
  monday tuesday wednesday thursday friday saturday sunday : Weekday

abbrev pub Date : Type 0
Date = ℕ

-- the place in `_WEEKDAY_ORDER`, and one more
abbrev pub iso_number : Weekday → ℕ
iso_number monday = 1
iso_number tuesday = 2
iso_number wednesday = 3
iso_number thursday = 4
iso_number friday = 5
iso_number saturday = 6
iso_number sunday = 7

-- `_WEEKDAY_ORDER[index]`
abbrev pub weekday_order : ℕ → Weekday
weekday_order index =
    if index == 0
    then monday
    else if index == 1
    then tuesday
    else if index == 2
    then wednesday
    else if index == 3
    then thursday
    else if index == 4
    then friday
    else if index == 5
    then saturday
    else sunday

-- `Weekday.from_date_object`; ordinal 1 is a Monday
abbrev pub from_date_object : Date → Weekday
from_date_object day = weekday_order ((day + 6) % 7)

abbrev pub working_week : List Weekday
working_week = monday ∷ tuesday ∷ wednesday ∷ thursday ∷ friday ∷ []

-- `day in weekdays`
unfoldable pub includes : List Weekday → Weekday → Bool
includes days day = any (λ d. iso_number d == iso_number day) days

pub data MisfirePolicy : Type 0 where
  run_immediately run_all skip : MisfirePolicy

abbrev pub catches_up : MisfirePolicy → Bool
catches_up skip = false
catches_up _ = true

-- what every schedule answers: `next_occurrence_after`
abbrev pub Schedule : Type 0
Schedule = Timestamp → Option Timestamp

abbrev pub max_preview_occurrences : ℕ
max_preview_occurrences = 500

-- the loop of `preview_occurrences`
unfoldable pub preview_from : Schedule → ℕ → Timestamp → List Timestamp
preview_from schedule zero cursor = []
preview_from schedule (suc count) cursor = elim (schedule cursor) [
  | none ↦ []
  | some next ↦ next ∷ preview_from schedule count next
]

unfoldable pub preview_occurrences : Schedule → Timestamp → ℕ → Result (List Timestamp)
unfolding preview_from
preview_occurrences schedule after count =
    raise_if (ltb count 1) validation_failed "Preview count must be at least 1."
    >> raise_if (ltb max_preview_occurrences count) validation_failed
        "Preview count exceeds the supported maximum."
    >> ok (preview_from schedule count after)

pub record IntervalSchedule : Type 0 where
  pub every : Duration
  pub anchor : Timestamp

unfoldable pub validate_interval : IntervalSchedule → Result IntervalSchedule
unfolding is_zero
validate_interval s =
    raise_if (is_zero s.every) validation_failed
      "An interval schedule requires a non-zero interval."
    >> ok s

-- `every.as_timedelta()`
abbrev pub interval_step : IntervalSchedule → ℕ
interval_step s = s.every.seconds * microseconds_per_second

-- `int(elapsed.total_seconds() // step.total_seconds())`: the quotient of two spans of microseconds that
-- the arithmetic of `float` gives, a parameter of the model. It is not always the exact one.
abbrev pub FloatQuotient : Type 0
FloatQuotient = ℕ → ℕ → ℕ

unfoldable pub next_interval_after : FloatQuotient → IntervalSchedule → Timestamp → Timestamp
next_interval_after quotient s moment =
    if ltb moment s.anchor
    then s.anchor
    else s.anchor + interval_step s * (quotient (moment - s.anchor) (interval_step s) + 1)

abbrev pub interval_occurrences : FloatQuotient → IntervalSchedule → Schedule
interval_occurrences quotient s moment = some (next_interval_after quotient s moment)

abbrev pub manual_occurrences : Schedule
manual_occurrences moment = none

-- A time zone with the wall-clock time `at`: the local date of an instant, the instant of `at` on a
-- date, and whether the wall clock shows `at` at that instant.
pub record LocalTime : Type 0 where
  pub local_date : Timestamp → Date
  pub localised : Date → Timestamp
  pub exists_on : Date → Bool

pub record WeekdayTimeSchedule : Type 0 where
  pub at : LocalTime
  pub weekdays : List Weekday
  pub skip_nonexistent_times : Bool

-- `at`, a wall-clock time, has no zone of its own here
unfoldable pub validate_weekday_schedule : WeekdayTimeSchedule → Result WeekdayTimeSchedule
validate_weekday_schedule s =
    raise_if (is_empty s.weekdays) validation_failed
      "A weekday schedule must select at least one day, or it can never fire."
    >> ok s

abbrev pub search_limit_days : ℕ
search_limit_days = 1500

-- an iteration of the search: `none` where it goes on
unfoldable pub candidate_on : WeekdayTimeSchedule → Timestamp → Date → Option Timestamp
unfolding includes
candidate_on s moment day =
    if not (includes s.weekdays (from_date_object day))
    then none
    else if not (s.at.exists_on day) && s.skip_nonexistent_times
    then none
    else if ltb moment (s.at.localised day)
    then some (s.at.localised day)
    else none

unfoldable pub search_days : WeekdayTimeSchedule → Timestamp → ℕ → Date → Option Timestamp
search_days s moment zero day = none
search_days s moment (suc days) day = elim (candidate_on s moment day) [
  | none ↦ search_days s moment days (suc day)
  | some candidate ↦ some candidate
]

-- `WeekdayTimeSchedule.next_occurrence_after`
unfoldable pub next_weekday_after : WeekdayTimeSchedule → Schedule
unfolding search_days candidate_on
next_weekday_after s moment = search_days s moment search_limit_days (s.at.local_date moment)
