-- ===== src/Execution/Attempt.antt =====
-- `ExecutionAttempt` (src/taskcontrol/domain/execution/execution.py). The object is frozen, and each
-- method and `replace` run `__post_init__` again. Identifiers are texts.
use task_control.Errors.{Result, ok, validation_failed, domain_rule_violation, raise_if, ◌>>◌}
use task_control.Execution.Results.{ProcessResult}
use task_control.Prelude.{ℕ, String, not, ◌&&◌, ◌||◌, Option, none, some, ltb, is_some}
use task_control.Values.{Timestamp, Duration, zero_duration}

pub record ExecutionAttempt : Type 0 where
  pub attempt_id : String
  pub execution_id : String
  pub attempt_number : ℕ
  pub started_at : Timestamp
  pub executor_type : String
  pub finished_at : Option Timestamp
  pub result : Option ProcessResult
  pub stdout : String
  pub stderr : String

-- `ExecutionAttempt.__post_init__`: the second test is `(a is None) != (b is None)`
unfoldable pub validate_attempt : ExecutionAttempt → Result ExecutionAttempt
validate_attempt a = do
  raise_if (ltb a.attempt_number 1) validation_failed "Attempt numbers start at 1."
  raise_if
      ((is_some a.finished_at && not (is_some a.result))
        || (not (is_some a.finished_at) && is_some a.result))
      validation_failed
      "An attempt has either both a finish time and a result, or neither. One without the other describes a state that cannot exist."
  ok a

-- `ExecutionAttempt(...)` with the defaults of an attempt that begins
unfoldable pub new_attempt : String → String → ℕ → Timestamp → String → Result ExecutionAttempt
unfolding validate_attempt
new_attempt attempt_id execution_id number started_at executor_type = validate_attempt (record {
  attempt_id = attempt_id;
  execution_id = execution_id;
  attempt_number = number;
  started_at = started_at;
  executor_type = executor_type;
  finished_at = none;
  result = none;
  stdout = "";
  stderr = "";
})

-- `ExecutionAttempt.finish`
unfoldable pub finish :
    ExecutionAttempt → ProcessResult → Timestamp → String → String → Result ExecutionAttempt
unfolding validate_attempt
finish a result finished_at stdout stderr = do
  raise_if (is_some a.result) domain_rule_violation
      "This attempt has already finished. Retries create a new attempt."
  validate_attempt (record a {
    result = some result;
    finished_at = some finished_at;
    stdout = stdout;
    stderr = stderr;
  })

-- the property `duration`
unfoldable pub duration : ExecutionAttempt → Duration
duration a = elim a.result [ none ↦ zero_duration | some r ↦ r.duration ]
