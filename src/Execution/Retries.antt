-- ===== src/Execution/Retries.antt =====
-- Retry and timeout policies (src/taskcontrol/domain/execution/results.py).
use task_control.Errors.{Result, ok, validation_failed, raise_if, ◌>>◌}
use task_control.Prelude.{ℕ, ◌+◌, ◌-◌, ◌*◌, ◌^◌, min, Bool, not, ◌&&◌, ltb, ◌==◌, if◌then◌else◌}
use task_control.Values.{Duration, make_duration, zero_duration, is_zero}

abbrev pub max_retry_attempts : ℕ
max_retry_attempts = 100

pub data BackoffStrategy : Type 0 where
  fixed linear exponential : BackoffStrategy

pub record RetryPolicy : Type 0 where
  pub max_attempts : ℕ
  pub backoff : BackoffStrategy
  pub base_delay : Duration
  pub max_delay : Duration
  pub retry_outcome_failures : Bool
  pub retry_timeouts : Bool

-- `RetryPolicy.__post_init__`, run on every constructed value
unfoldable pub validate_policy : RetryPolicy → Result RetryPolicy
validate_policy p = do
  raise_if (ltb p.max_attempts 1) validation_failed
      "RetryPolicy max_attempts must be at least 1, which means no retry."
  raise_if (ltb max_retry_attempts p.max_attempts) validation_failed
      "RetryPolicy max_attempts exceeds the supported maximum."
  raise_if (ltb p.max_delay.seconds p.base_delay.seconds) validation_failed
      "RetryPolicy max_delay must not be shorter than base_delay."
  ok p

unfoldable pub retries_enabled : RetryPolicy → Bool
retries_enabled p = ltb 1 p.max_attempts

unfoldable pub backoff_seconds : BackoffStrategy → ℕ → ℕ → ℕ
backoff_seconds fixed base retry_index = base
backoff_seconds linear base retry_index = base * (retry_index + 1)
backoff_seconds exponential base retry_index = base * 2 ^ retry_index

-- The subtraction is made only where the attempt is 2 or more.
unfoldable pub delay_before : RetryPolicy → ℕ → Result Duration
unfolding backoff_seconds
delay_before p attempt_number = do
  raise_if (ltb attempt_number 1) validation_failed "Attempt numbers start at 1."
  if attempt_number == 1
      then ok zero_duration
      else make_duration (
          min (backoff_seconds p.backoff p.base_delay.seconds (attempt_number - 2))
            p.max_delay.seconds)

pub record TimeoutPolicy : Type 0 where
  pub run_timeout : Duration
  pub termination_grace : Duration

-- `TimeoutPolicy.__post_init__`
unfoldable pub validate_timeout : TimeoutPolicy → Result TimeoutPolicy
validate_timeout p = do
  raise_if (is_zero p.run_timeout && not (is_zero p.termination_grace)) validation_failed
      "A termination grace period requires a run timeout to enforce."
  ok p
