-- ===== src/Configuration/Profile.antt =====
-- `ConfigurationLayer`, `Variable` and `Profile` with their checks
-- (src/taskcontrol/domain/configuration/profiles.py). Identifiers, slugs and secret references are texts.
use task_control.Errors.{Result, ok, raise_if, validation_failed, ◌>>◌}
use task_control.Prelude.{
  ℕ, ltb, Bool, false, not, ◌||◌, ◌&&◌, String, Option, List, [], ◌∷◌, map, len, length, is_blank,
  is_some, str_eq, any, find?,
}

pub data ConfigurationLayer : Type 0 where
  product_default organisation_default environment_default collection_default : ConfigurationLayer
  target_default task_revision trigger_parameter execution_override : ConfigurationLayer

-- the number of a layer; two layers are compared by it
abbrev pub precedence : ConfigurationLayer → ℕ
precedence product_default = 10
precedence organisation_default = 20
precedence environment_default = 40
precedence collection_default = 50
precedence target_default = 60
precedence task_revision = 80
precedence trigger_parameter = 90
precedence execution_override = 100

abbrev pub label : ConfigurationLayer → String
label product_default = "product_default"
label organisation_default = "organisation_default"
label environment_default = "environment_default"
label collection_default = "collection_default"
label target_default = "target_default"
label task_revision = "task_revision"
label trigger_parameter = "trigger_parameter"
label execution_override = "execution_override"

abbrev pub max_variable_name_length : ℕ
max_variable_name_length = 200

abbrev pub max_variables_per_profile : ℕ
max_variables_per_profile = 500

pub record Variable : Type 0 where
  pub name : String
  pub value : Option String
  pub secret : Option String
  pub overridable : Bool

-- `(value is None) == (secret is None)`
abbrev has_both_or_neither : Variable → Bool
has_both_or_neither v =
    (is_some v.value && is_some v.secret) || (not (is_some v.value) && not (is_some v.secret))

unfoldable pub validate_variable : Variable → Result Variable
unfolding is_blank len
validate_variable v =
    raise_if (is_blank v.name) validation_failed "A configuration variable requires a name."
    >> raise_if (ltb max_variable_name_length (len v.name)) validation_failed
        "Variable name is too long."
    >> raise_if (has_both_or_neither v) validation_failed
        "A variable must hold exactly one of a literal value or a secret reference."
    >> ok v

pub record Profile : Type 0 where
  pub profile_id : String
  pub name : String
  pub slug : String
  pub layer : ConfigurationLayer
  pub variables : List Variable
  pub description : String

-- `len(names) != len(set(names))`
unfoldable repeats_name : List String → Bool
repeats_name [] = false
repeats_name (n ∷ ns) = let rest = repeats_name ns in any (str_eq n) ns || rest

unfoldable pub validate_profile : Profile → Result Profile
unfolding is_blank repeats_name
validate_profile p =
    raise_if (is_blank p.name) validation_failed "A profile requires a name."
    >> raise_if (ltb max_variables_per_profile (length p.variables)) validation_failed
        "Too many variables in one profile."
    >> raise_if (repeats_name (map (λ (v : Variable). v.name) p.variables)) validation_failed
        "Variable names must be unique within a profile. Two definitions of the same key in one layer have no defined precedence."
    >> ok p

-- `Profile.variable`
unfoldable pub variable : String → List Variable → Option Variable
variable name = find? (λ v. str_eq v.name name)
