-- ===== src/Configuration/Resolution.antt =====
-- `resolve_configuration` and the trace that it returns
-- (src/taskcontrol/domain/configuration/profiles.py). A dictionary is a list of its items.
use task_control.Configuration.Profile.{ConfigurationLayer, precedence, label, Variable, Profile}
use task_control.Errors.{Result, ok, raise, domain_rule_violation_error, ◌>>=◌}
use task_control.Prelude.{
  leb, ◌==◌, Bool, true, false, ◌&&◌, String, Option, none, some, List, [], ◌∷◌, ◌++◌, map, str_eq,
  if◌then◌else◌, concat, or_else,
}

pub record ResolvedValue : Type 0 where
  pub name : String
  pub layer : ConfigurationLayer
  pub source_profile : String
  pub value : Option String
  pub secret : Option String
  pub overridden : List (ConfigurationLayer × String)

abbrev pub Values : Type 0
Values = List (String × ResolvedValue)

pub record ResolutionTrace : Type 0 where
  pub values : Values
  pub profiles_applied : List String

-- `values.get(name)`
unfoldable pub lookup : String → Values → Option ResolvedValue
lookup name [] = none
lookup name ((key, r) ∷ values) =
    let rest = lookup name values in if str_eq key name then some r else rest

-- `values[name] = r`: a new key comes last
unfoldable pub assign : String → ResolvedValue → Values → Values
assign name r [] = (name, r) ∷ []
assign name r ((key, old) ∷ values) =
    let rest = assign name r values in
    if str_eq key name then (key, r) ∷ values else (key, old) ∷ rest

-- `ResolutionTrace.get`
unfoldable pub get_value : ResolutionTrace → String → Option ResolvedValue
unfolding lookup
get_value trace name = lookup name trace.values

-- `sorted` by the layer: stable
unfoldable pub insert_profile : Profile → List Profile → List Profile
insert_profile p [] = p ∷ []
insert_profile p (q ∷ qs) =
    let rest = insert_profile p qs in
    if leb (precedence p.layer) (precedence q.layer) then p ∷ q ∷ qs else q ∷ rest

unfoldable pub sort_profiles : List Profile → List Profile
unfolding insert_profile
sort_profiles [] = []
sort_profiles (p ∷ ps) = insert_profile p (sort_profiles ps)

-- the three dictionaries that the loops fill
pub record Resolving : Type 0 where
  pub resolved : Values
  pub pinned : List (String × ConfigurationLayer × String)
  pub claimed_at_layer : List (ConfigurationLayer × String × String)

-- `key in claimed_at_layer`
unfoldable pub is_claimed :
    ConfigurationLayer → String → List (ConfigurationLayer × String × String) → Bool
is_claimed layer name [] = false
is_claimed layer name ((l, key, _) ∷ claims) =
    let rest = is_claimed layer name claims in
    if (precedence l == precedence layer) && str_eq key name then true else rest

-- `variable.name in pinned`
unfoldable pub is_pinned : String → List (String × ConfigurationLayer × String) → Bool
is_pinned name [] = false
is_pinned name ((key, _, _) ∷ pins) =
    let rest = is_pinned name pins in if str_eq key name then true else rest

-- what a value has overridden
abbrev pub overridden_by : Option ResolvedValue → List (ConfigurationLayer × String)
overridden_by none = []
overridden_by (some previous) =
    previous.overridden ++ (previous.layer, previous.source_profile) ∷ []

abbrev pub resolved_value :
    ConfigurationLayer → String → Variable → Option ResolvedValue → ResolvedValue
resolved_value layer source v previous = record {
  name = v.name;
  layer = layer;
  source_profile = source;
  value = v.value;
  secret = v.secret;
  overridden = overridden_by previous;
}

abbrev pub same_layer_message : String
same_layer_message =
    "Two profiles at the same layer define the same key, so which one wins is undefined. Resolve the conflict rather than relying on order."

abbrev pub pinned_message : String
pinned_message = "This value is pinned by a lower layer and must not be overridden."

-- the dictionaries behind an iteration that raises nothing
abbrev pub recorded : ConfigurationLayer → String → Variable → Resolving → Resolving
recorded layer source v s = record {
  resolved = assign v.name (resolved_value layer source v (lookup v.name s.resolved)) s.resolved;
  pinned = if v.overridable then s.pinned else (v.name, layer, source) ∷ s.pinned;
  claimed_at_layer = (layer, v.name, source) ∷ s.claimed_at_layer;
}

-- an iteration of the inner loop
unfoldable pub resolve_variable :
    ConfigurationLayer → String → Variable → Resolving → Result Resolving
unfolding is_claimed is_pinned
resolve_variable layer source v s =
    if is_claimed layer v.name s.claimed_at_layer
    then domain_rule_violation_error same_layer_message
    else if is_pinned v.name s.pinned
    then domain_rule_violation_error pinned_message
    else ok (recorded layer source v s)

unfoldable pub resolve_variables :
    ConfigurationLayer → String → List Variable → Resolving → Result Resolving
unfolding resolve_variable
resolve_variables layer source [] s = ok s
resolve_variables layer source (v ∷ vs) s =
    resolve_variable layer source v s >>= resolve_variables layer source vs

unfoldable pub resolve_profiles : List Profile → Resolving → Result Resolving
unfolding resolve_variables
resolve_profiles [] s = ok s
resolve_profiles (p ∷ ps) s = resolve_variables p.layer p.name p.variables s >>= resolve_profiles ps

abbrev pub nothing_resolved : Resolving
nothing_resolved = record { resolved = []; pinned = []; claimed_at_layer = [] }

abbrev pub trace_of : List Profile → Resolving → ResolutionTrace
trace_of ordered s = record {
  values = s.resolved;
  profiles_applied = map (λ (p : Profile). p.name) ordered;
}

abbrev pub traced : List Profile → Result Resolving → Result ResolutionTrace
traced ordered (ok s) = ok (trace_of ordered s)
traced ordered (raise e) = raise e

-- `resolve_configuration`
unfoldable pub resolve_configuration : List Profile → Result ResolutionTrace
unfolding sort_profiles resolve_profiles
resolve_configuration profiles =
    let ordered = sort_profiles profiles in
    traced ordered (resolve_profiles ordered nothing_resolved)

-- `ResolutionTrace.secret_references`
unfoldable pub secrets_of : Values → List String
secrets_of [] = []
secrets_of ((_, r) ∷ values) =
    let rest = secrets_of values in elim r.secret [ none ↦ rest | some secret ↦ secret ∷ rest ]

-- `ResolutionTrace.environment_literals`
unfoldable pub environment_literals : Values → List (String × String)
environment_literals [] = []
environment_literals ((name, r) ∷ values) =
    let rest = environment_literals values in
    elim r.value [ none ↦ rest | some value ↦ (name, value) ∷ rest ]

-- `ResolvedValue.display_value`
unfoldable pub display_value : ResolvedValue → String
display_value r = elim r.secret [
  | none ↦ or_else r.value ""
  | some secret ↦ concat ("<secret " ∷ secret ∷ ">" ∷ [])
]

-- one of the layers that lost, as `explain` names it; `quoted` is the representation of a text
abbrev pub loser : (String → String) → ConfigurationLayer × String → String
loser quoted (layer, profile) = concat (label layer ∷ " (" ∷ quoted profile ∷ ")" ∷ [])

unfoldable pub join_losers : (String → String) → List (ConfigurationLayer × String) → String
join_losers quoted [] = ""
join_losers quoted (l ∷ ls) =
    let rest = join_losers quoted ls in
    elim ls [ [] ↦ loser quoted l | _ ∷ _ ↦ concat (loser quoted l ∷ ", " ∷ rest ∷ []) ]

abbrev pub explain_value : (String → String) → String → Option ResolvedValue → String
explain_value quoted name none = concat (quoted name ∷ " was not defined by any layer." ∷ [])
explain_value quoted name (some r) =
    let explanation = concat (
      quoted name
      ∷ " resolved from the "
      ∷ label r.layer
      ∷ " layer (profile "
      ∷ quoted r.source_profile
      ∷ ")."
      ∷ []) in
    elim r.overridden [
      | [] ↦ explanation
      | _ ∷ _ ↦ concat (explanation ∷ " It overrode: " ∷ join_losers quoted r.overridden ∷ "." ∷ [])
    ]

-- `ResolutionTrace.explain`
unfoldable pub explain : (String → String) → ResolutionTrace → String → String
unfolding lookup
explain quoted trace name = explain_value quoted name (lookup name trace.values)
