-- ===== src/Deployment/Strategies.antt =====
-- `DeploymentSpecification` with its enumerations
-- (src/taskcontrol/domain/deployment/strategies.py). Which characters are letters and digits is
-- Unicode's table, a parameter.
use Prim.Native.Char.{code}
use task_control.Errors.{Result, ok, raise_if, validation_failed, ◌>>◌}
use task_control.Prelude.{
  ℕ, String, Bool, true, false, not, ◌&&◌, ◌||◌, Option, none, some, [], ◌∷◌, ltb, ◌==◌, len,
  is_blank, concat,
}

pub data DeploymentTarget : Type 0 where
  user_crontab system_crontab cron_d run_parts : DeploymentTarget

abbrev pub target_value : DeploymentTarget → String
target_value user_crontab = "user_crontab"
target_value system_crontab = "system_crontab"
target_value cron_d = "cron_d"
target_value run_parts = "run_parts"

abbrev pub requires_privilege : DeploymentTarget → Bool
requires_privilege user_crontab = false
requires_privilege _ = true

abbrev pub expresses_execution_user : DeploymentTarget → Bool
expresses_execution_user system_crontab = true
expresses_execution_user cron_d = true
expresses_execution_user _ = false

pub data DeploymentStrategy : Type 0 where
  run_parts_directory crontab_block_per_task crontab_single_block cron_d_file : DeploymentStrategy

abbrev pub strategy_value : DeploymentStrategy → String
strategy_value run_parts_directory = "run_parts_directory"
strategy_value crontab_block_per_task = "crontab_block_per_task"
strategy_value crontab_single_block = "crontab_single_block"
strategy_value cron_d_file = "cron_d_file"

-- `target in strategy.permitted_targets`
abbrev pub permits : DeploymentStrategy → DeploymentTarget → Bool
permits run_parts_directory run_parts = true
permits run_parts_directory _ = false
permits cron_d_file cron_d = true
permits cron_d_file _ = false
permits _ user_crontab = true
permits _ system_crontab = true
permits _ _ = false

-- `", ".join(sorted(...))` of the permitted targets
abbrev pub permitted_targets_text : DeploymentStrategy → String
permitted_targets_text run_parts_directory = "run_parts"
permitted_targets_text cron_d_file = "cron_d"
permitted_targets_text _ = "system_crontab, user_crontab"

abbrev pub default_target : DeploymentStrategy → DeploymentTarget
default_target run_parts_directory = run_parts
default_target cron_d_file = cron_d
default_target _ = user_crontab

abbrev pub writes_a_file_per_task : DeploymentStrategy → Bool
writes_a_file_per_task run_parts_directory = true
writes_a_file_per_task cron_d_file = true
writes_a_file_per_task _ = false

abbrev pub carries_its_own_schedule : DeploymentStrategy → Bool
carries_its_own_schedule run_parts_directory = false
carries_its_own_schedule _ = true

pub data PeriodicClassification : Type 0 where
  hourly daily weekly monthly : PeriodicClassification

abbrev pub max_execution_user_length : ℕ
max_execution_user_length = 32

pub record DeploymentSpecification : Type 0 where
  pub strategy : DeploymentStrategy
  pub target : DeploymentTarget
  pub classification : Option PeriodicClassification
  pub execution_user : Option String

abbrev is_run_parts_directory : DeploymentStrategy → Bool
is_run_parts_directory run_parts_directory = true
is_run_parts_directory _ = false

-- What `str.isalnum` and `str.isdigit` ask of one character.
pub record UnicodeTable : Type 0 where
  pub is_alnum : ℕ → Bool
  pub is_digit : ℕ → Bool

module _ (unicode : UnicodeTable) where
  open unicode use {is_alnum, is_digit}

  -- a character that `name.replace("-", "").replace("_", "")` keeps
  keeps : ℕ → Bool
  keeps c = not (c == b'-' || c == b'_')

  all_alnum : String → Bool
  unfolding keeps
  all_alnum String.[] = true
  all_alnum (String.◌∷◌ c s) = (not (keeps (code c)) || is_alnum (code c)) && all_alnum s

  keeps_any : String → Bool
  unfolding keeps
  keeps_any String.[] = false
  keeps_any (String.◌∷◌ c s) = keeps (code c) || keeps_any s

  -- `name.replace("-", "").replace("_", "").isalnum()`
  unfoldable pub is_plain_name : String → Bool
  unfolding all_alnum keeps_any
  is_plain_name name = keeps_any name && all_alnum name

  starts_with_digit : String → Bool
  starts_with_digit String.[] = false
  starts_with_digit (String.◌∷◌ c s) = is_digit (code c)

  -- `_validate_execution_user`
  unfoldable pub validate_execution_user : DeploymentTarget → String → Result (Unit {0})
  unfolding is_plain_name starts_with_digit
  validate_execution_user target user = do
    raise_if (is_blank user) validation_failed
        "An execution user must be a name, not blank. Omit it to run as the target's default user."
    raise_if (ltb max_execution_user_length (len user)) validation_failed
        "Execution user name is too long."
    raise_if (not (is_plain_name user) || starts_with_digit user) validation_failed
        "An execution user name may contain only letters, digits, hyphens, and underscores, and may not start with a digit."
    raise_if (not (expresses_execution_user target)) validation_failed (
        concat (
          "A '"
          ∷ target_value target
          ∷ "' artefact cannot name the user the work runs as, so asking it to run as '"
          ∷ user
          ∷ "' would silently run it as somebody else. Use the system crontab or /etc/cron.d, or omit the execution user."
          ∷ []))

  validate_optional_user : DeploymentTarget → Option String → Result (Unit {0})
  unfolding validate_execution_user
  validate_optional_user target none = ok tt
  validate_optional_user target (some user) = validate_execution_user target user

  abbrev is_missing : Option PeriodicClassification → Bool
  is_missing none = true
  is_missing (some _) = false

  -- `__post_init__`
  unfoldable pub validate_deployment : DeploymentSpecification → Result DeploymentSpecification
  unfolding validate_optional_user
  validate_deployment d = do
    raise_if (not (permits d.strategy d.target)) validation_failed (
        concat (
          "A '"
          ∷ strategy_value d.strategy
          ∷ "' artefact cannot be written to '"
          ∷ target_value d.target
          ∷ "'. Permitted targets for this strategy: "
          ∷ permitted_targets_text d.strategy
          ∷ "."
          ∷ []))
    raise_if (is_run_parts_directory d.strategy && is_missing d.classification) validation_failed
        "Run-parts deployment requires a classification, because the directory supplies the schedule. Classify the task as hourly, daily, weekly, or monthly, or choose a strategy that carries its own schedule."
    validate_optional_user d.target d.execution_user
    ok d

  unfoldable pub assert_deployable_for : DeploymentSpecification → String → Result (Unit {0})
  unfolding is_plain_name
  assert_deployable_for d slug =
      raise_if (writes_a_file_per_task d.strategy && not (is_plain_name slug)) validation_failed (
        concat (
          "The slug '"
          ∷ slug
          ∷ "' cannot be used as a filename in "
          ∷ target_value d.target
          ∷ ": cron would ignore the file, so the task would appear deployed and never run. Only letters, digits, hyphens, and underscores are safe here."
          ∷ []))

  unfoldable pub artefact_name : DeploymentSpecification → String → Result String
  unfolding assert_deployable_for
  artefact_name d slug = do
    raise_if (not (writes_a_file_per_task d.strategy)) validation_failed (
        concat (
          "A '"
          ∷ strategy_value d.strategy
          ∷ "' deployment writes a region inside a crontab, not a file of its own, so it has no filename."
          ∷ []))
    assert_deployable_for d slug
    ok slug

  abbrev strategy_for : Option PeriodicClassification → DeploymentStrategy
  strategy_for none = crontab_block_per_task
  strategy_for (some _) = run_parts_directory

  unfoldable pub for_classification :
      Option PeriodicClassification → Option String → Result DeploymentSpecification
  unfolding validate_deployment
  for_classification classification execution_user = validate_deployment (record {
    strategy = strategy_for classification;
    target = default_target (strategy_for classification);
    classification = classification;
    execution_user = execution_user;
  })
