-- ===== src/Tests/Configurations.antt =====
-- Two profiles, the higher given first, with a pinned region.
use task_control.Configuration.Precedence.{resolution_exact, expected}
use task_control.Configuration.Profile.{
  Profile, Variable, environment_default, execution_override, validate_profile, validate_variable,
}
use task_control.Configuration.Resolution.{
  ResolvedValue, ResolutionTrace, get_value, sort_profiles, resolve_configuration, assign, lookup,
  join_losers, Values, explain, secrets_of, environment_literals,
}
use task_control.Configuration.Steps.{Compatible, definition, definitions}
use task_control.Configuration.Winning.{IsWinner, highest_layer_wins}
use task_control.Errors.{ok, raise, error, domain_rule_violation}
use task_control.Prelude.{
  String, ◌≡◌, ◌⊎◌, refl, true, false, some, none, [], ◌∷◌, All, concat, len, is_blank,
}

abbrev region : Variable
region = record { name = "REGION"; value = some "eu"; secret = none; overridable = false }

abbrev token : Variable
token = record { name = "TOKEN"; value = none; secret = some "env://T"; overridable = true }

abbrev debug : Variable
debug = record { name = "DEBUG"; value = some "0"; secret = none; overridable = true }

abbrev debug_on : Variable
debug_on = record { name = "DEBUG"; value = some "1"; secret = none; overridable = true }

abbrev staging : Profile
staging = record {
  profile_id = "p1";
  name = "staging";
  slug = "staging";
  layer = environment_default;
  variables = region ∷ token ∷ debug ∷ [];
  description = "";
}

abbrev this_run : Profile
this_run = record {
  profile_id = "p2";
  name = "this run";
  slug = "this-run";
  layer = execution_override;
  variables = debug_on ∷ [];
  description = "";
}

staging_valid : validate_profile staging ≡ ok staging
unfolding validate_profile
staging_valid = refl

region_valid : validate_variable region ≡ ok region
unfolding validate_variable is_blank len
region_valid = refl

abbrev resolved_region : ResolvedValue
resolved_region = record {
  name = "REGION";
  layer = environment_default;
  source_profile = "staging";
  value = some "eu";
  secret = none;
  overridden = [];
}

abbrev resolved_token : ResolvedValue
resolved_token = record {
  name = "TOKEN";
  layer = environment_default;
  source_profile = "staging";
  value = none;
  secret = some "env://T";
  overridden = [];
}

abbrev resolved_debug : ResolvedValue
resolved_debug = record {
  name = "DEBUG";
  layer = execution_override;
  source_profile = "this run";
  value = some "1";
  secret = none;
  overridden = (environment_default, "staging") ∷ [];
}

abbrev values : Values
values = ("REGION", resolved_region) ∷ ("TOKEN", resolved_token) ∷ ("DEBUG", resolved_debug) ∷ []

abbrev trace : ResolutionTrace
trace = record { values = values; profiles_applied = "staging" ∷ "this run" ∷ [] }

resolved : resolve_configuration (this_run ∷ staging ∷ []) ≡ ok trace
unfolding resolve_configuration assign lookup
resolved = refl

secret_kept : secrets_of values ≡ "env://T" ∷ []
unfolding secrets_of
secret_kept = refl

no_secret_literals : environment_literals values ≡ ("REGION", "eu") ∷ ("DEBUG", "1") ∷ []
unfolding environment_literals
no_secret_literals = refl

debug_explained :
    explain (λ t. concat ("'" ∷ t ∷ "'" ∷ [])) trace "DEBUG"
    ≡ "'DEBUG' resolved from the execution_override layer (profile 'this run'). It overrode: environment_default ('staging')."
unfolding explain concat join_losers lookup
debug_explained = refl

highest_layer_wins_example :
    All
      (λ (p : Profile).
        All
          (λ v. IsWinner (this_run ∷ staging ∷ []) trace (definition p.layer p.name v))
          p.variables)
      (this_run ∷ staging ∷ [])
highest_layer_wins_example = highest_layer_wins (this_run ∷ staging ∷ []) trace resolved

resolution_exact_example :
    ((t : ResolutionTrace) × (resolve_configuration (this_run ∷ staging ∷ []) ≡ ok t)
      × Compatible (definitions (sort_profiles (this_run ∷ staging ∷ [])))
      × ((name : String)
          → get_value t name
            ≡ expected name [] none (definitions (sort_profiles (this_run ∷ staging ∷ [])))))
    ⊎ ((message : String) × (resolve_configuration (this_run ∷ staging ∷ [])
          ≡ raise (error domain_rule_violation message))
        × (Compatible (definitions (sort_profiles (this_run ∷ staging ∷ []))) → ⊥))
resolution_exact_example = resolution_exact (this_run ∷ staging ∷ [])
