-- ===== src/Scheduling/Calendars.antt =====
-- Business calendars (src/taskcontrol/domain/scheduling/calendars.py). A dictionary is a list of its
-- items; identifiers and the time zone, which no operation reads, are texts.
use task_control.Errors.{Result, ok, raise_if, validation_failed, ◌>>◌}
use task_control.Prelude.{
  ℕ, ◌==◌, Bool, true, false, not, ◌&&◌, String, Option, none, some, List, [], ◌∷◌, is_some,
  is_blank, is_empty, if◌then◌else◌, concat, show, str_eq,
}
use task_control.Scheduling.Schedules.{Weekday, Date, from_date_object, includes}

pub data DayClassification : Type 0 where
  working_day weekend holiday special_working_day early_close : DayClassification

abbrev pub classification_value : DayClassification → String
classification_value working_day = "working_day"
classification_value weekend = "weekend"
classification_value holiday = "holiday"
classification_value special_working_day = "special_working_day"
classification_value early_close = "early_close"

-- `DayClassification.is_open`
abbrev pub is_open : DayClassification → Bool
is_open working_day = true
is_open special_working_day = true
is_open early_close = true
is_open weekend = false
is_open holiday = false

pub record DayVerdict : Type 0 where
  pub day : Date
  pub classification : DayClassification
  pub calendar_name : String
  pub calendar_revision : ℕ
  pub note : Option String

abbrev pub Days : Type 0
Days = List (Date × String)

pub record Calendar : Type 0 where
  pub calendar_id : String
  pub name : String
  pub slug : String
  pub timezone : String
  pub revision : ℕ
  pub working_weekdays : List Weekday
  pub holidays : Days
  pub special_working_days : Days
  pub early_closes : Days
  pub source : String

-- `days.get(day)`
unfoldable pub note_on : Date → Days → Option String
note_on day [] = none
note_on day ((d, note) ∷ days) = let rest = note_on day days in if d == day then some note else rest

-- `set(days) & set(others)` is not empty
unfoldable pub share_a_day : Days → Days → Bool
unfolding note_on
share_a_day [] others = false
share_a_day ((d, _) ∷ days) others =
    let rest = share_a_day days others in if is_some (note_on d others) then true else rest

unfoldable pub validate_calendar : Calendar → Result Calendar
unfolding is_blank share_a_day
validate_calendar c =
    raise_if (is_blank c.name) validation_failed "A calendar requires a name."
    >> raise_if (is_empty c.working_weekdays && is_empty c.special_working_days) validation_failed
        "A calendar with no working weekdays and no special working days is never open, so nothing bound to it could ever run."
    >> raise_if (share_a_day c.holidays c.special_working_days) validation_failed
        "A date cannot be both a holiday and a special working day."
    >> raise_if (share_a_day c.holidays c.early_closes) validation_failed
        "A date cannot be both a holiday and an early close: a closed day has no closing time."
    >> ok c

-- `_verdict`
abbrev pub verdict : Calendar → Date → DayClassification → Option String → DayVerdict
verdict c day classification note = record {
  day = day;
  classification = classification;
  calendar_name = c.name;
  calendar_revision = c.revision;
  note = note;
}

-- `classify` where no dictionary has the date
abbrev pub ordinary : Calendar → Date → DayVerdict
ordinary c day =
    if not (includes c.working_weekdays (from_date_object day))
    then verdict c day weekend none
    else verdict c day working_day none

-- `Calendar.classify`
unfoldable pub classify : Calendar → Date → DayVerdict
unfolding note_on includes
classify c day = elim (note_on day c.holidays) [
  | some note ↦ verdict c day holiday (some note)
  | none ↦ elim (note_on day c.special_working_days) [
    | some note ↦ verdict c day special_working_day (some note)
    | none ↦ elim (note_on day c.early_closes) [
      | some note ↦ verdict c day early_close (some note)
      | none ↦ ordinary c day
    ]
  ]
]

-- `f" ({note})" if note else ""`
abbrev pub reason_text : Option String → String
reason_text none = ""
reason_text (some note) = if str_eq note "" then "" else concat (" (" ∷ note ∷ ")" ∷ [])

-- `DayVerdict.explain`; the texts of a date and the representation of a text are parameters
unfoldable pub explain_day : (Date → String) → (String → String) → DayVerdict → String
explain_day isoformat quoted v = concat (
    isoformat v.day
    ∷ " is "
    ∷ (if is_open v.classification then "open" else "closed")
    ∷ ": "
    ∷ classification_value v.classification
    ∷ reason_text v.note
    ∷ ", per calendar "
    ∷ quoted v.calendar_name
    ∷ " revision "
    ∷ show v.calendar_revision
    ∷ "."
    ∷ [])
