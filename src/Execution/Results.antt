-- ===== src/Execution/Results.antt =====
-- Process results (src/taskcontrol/domain/execution/results.py). Sizes and codes are numbers that
-- are not negative, so the checks that refuse a negative one have nothing to refuse.
use task_control.Errors.{Result, ok, validation_failed, raise_if, ◌>>◌}
use task_control.Prelude.{
  ℕ, String, Bool, true, false, not, ◌&&◌, Option, none, some, ltb, is_some, str_eq,
}
use task_control.Values.{Duration, zero_duration}

pub data TerminationCause : Type 0 where
  not_terminated run_timeout cancellation_requested superseded external : TerminationCause

pub data TerminationMode : Type 0 where
  exited signalled not_started abandoned : TerminationMode

abbrev pub max_exit_code : ℕ
max_exit_code = 255

pub record ProcessResult : Type 0 where
  pub termination : TerminationMode
  pub duration : Duration
  pub exit_code : Option ℕ
  pub signal_number : Option ℕ
  pub termination_cause : TerminationCause
  pub stdout_bytes : ℕ
  pub stderr_bytes : ℕ
  pub output_truncated : Bool
  pub launch_error : Option String

abbrev pub is_exited : TerminationMode → Bool
is_exited exited = true
is_exited _ = false

abbrev pub is_signalled : TerminationMode → Bool
is_signalled signalled = true
is_signalled _ = false

abbrev pub is_not_started : TerminationMode → Bool
is_not_started not_started = true
is_not_started _ = false

abbrev pub is_abandoned : TerminationMode → Bool
is_abandoned abandoned = true
is_abandoned _ = false

-- a text that is not empty, where the test is the text itself
abbrev pub is_truthy : Option String → Bool
is_truthy none = false
is_truthy (some s) = not (str_eq s "")

abbrev exceeds : ℕ → Option ℕ → Bool
exceeds limit none = false
exceeds limit (some n) = ltb limit n

-- `ProcessResult.__post_init__`, run on every constructed value
unfoldable pub validate_result : ProcessResult → Result ProcessResult
validate_result r = do
  raise_if (is_exited r.termination && not (is_some r.exit_code)) validation_failed
      "An exited process must report an exit code."
  raise_if (is_exited r.termination && exceeds max_exit_code r.exit_code) validation_failed
      "Exit code is outside the representable range."
  raise_if (not (is_exited r.termination) && is_some r.exit_code) validation_failed
      "Only an exited process may report an exit code."
  raise_if (is_signalled r.termination && not (is_some r.signal_number)) validation_failed
      "A signalled process must report a signal number."
  raise_if (not (is_signalled r.termination) && is_some r.signal_number) validation_failed
      "Only a signalled process may report a signal number."
  raise_if (is_not_started r.termination && not (is_truthy r.launch_error)) validation_failed
      "A process that did not start must explain why."
  ok r

blank_result : TerminationMode → Duration → ProcessResult
blank_result mode d = record {
  termination = mode;
  duration = d;
  exit_code = none;
  signal_number = none;
  termination_cause = not_terminated;
  stdout_bytes = 0;
  stderr_bytes = 0;
  output_truncated = false;
  launch_error = none;
}

-- `ProcessResult.exited`, with no extra fields
unfoldable pub exited_result : ℕ → Duration → Result ProcessResult
unfolding validate_result blank_result
exited_result code d = validate_result (record (blank_result exited d) { exit_code = some code })

-- `ProcessResult.not_started`
unfoldable pub not_started_result : String → Option Duration → Result ProcessResult
unfolding validate_result blank_result
not_started_result reason none =
    validate_result (record (blank_result not_started zero_duration) { launch_error = some reason })
not_started_result reason (some d) =
    validate_result (record (blank_result not_started d) { launch_error = some reason })

-- `ProcessResult.terminated`, with no extra fields
unfoldable pub terminated_result : TerminationCause → ℕ → Duration → Result ProcessResult
unfolding validate_result blank_result
terminated_result cause signal d =
    validate_result
      (record (blank_result signalled d) { signal_number = some signal; termination_cause = cause })

-- `ProcessResult.abandoned`
unfoldable pub abandoned_result : Duration → Result ProcessResult
unfolding validate_result blank_result
abandoned_result d = validate_result (blank_result abandoned d)

abbrev pub was_terminated : TerminationCause → Bool
was_terminated not_terminated = false
was_terminated _ = true
