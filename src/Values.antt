-- ===== src/Values.antt =====
-- Value objects (src/taskcontrol/domain/common/values.py). A timestamp is a number of
-- microseconds, the resolution of `datetime`, since a fixed instant before every one in use; the
-- overflow of `datetime` past the year 9999 is left out. A duration is a number of whole seconds.
use task_control.Errors.{Result, ok, validation_error}
use task_control.Prelude.{
  ℕ, ◌+◌, ◌*◌, ◌/◌, ◌%◌, String, ◌≡◌, Bool, [], ◌∷◌, arith, ltb, ◌==◌, if◌then◌else◌, show, concat,
  ◌≤◌,
}

abbrev pub Timestamp : Type 0
Timestamp = ℕ

abbrev pub microseconds_per_second : ℕ
microseconds_per_second = 1000000

-- one year
abbrev pub max_duration_seconds : ℕ
max_duration_seconds = 366 * 24 * 3600

pub record Duration : Type 0 where
  pub seconds : ℕ

-- `Duration(seconds)`; a negative or non-integral argument cannot be written
unfoldable pub make_duration : ℕ → Result Duration
make_duration seconds =
    if ltb max_duration_seconds seconds
    then validation_error "Duration exceeds the supported maximum of one year."
    else ok (record { seconds = seconds })

abbrev pub zero_duration : Duration
zero_duration = record { seconds = 0 }

unfoldable pub is_zero : Duration → Bool
is_zero d = d.seconds == 0

-- `moment + timedelta(seconds=...)`
unfoldable pub add_duration : Timestamp → Duration → Timestamp
add_duration moment d = moment + d.seconds * microseconds_per_second

part : ℕ → String → String
part n unit = if n == 0 then "" else concat (show n ∷ unit ∷ [])

-- `str(duration)`, such as `1h30m` or `45s`
unfoldable pub duration_text : Duration → String
unfolding part
duration_text d =
    let remainder = d.seconds % 3600 in
    if d.seconds == 0
    then "0s"
    else concat
        (part (d.seconds / 3600) "h" ∷ part (remainder / 60) "m" ∷ part (remainder % 60) "s" ∷ [])

-- A duration never exceeds a year.
abbrev pub IsValidDuration : Duration → Type 0
IsValidDuration d = d.seconds ≤ max_duration_seconds

make_duration-IsValidDuration : (n : ℕ) (d : Duration) → make_duration n ≡ ok d → IsValidDuration d
unfolding make_duration
make_duration-IsValidDuration n d h = ground arith
