-- ===== src/Configuration/Precedence.antt =====
-- Which values `resolve_configuration` gives, and when it refuses.
use task_control.Configuration.Profile.{ConfigurationLayer, Variable, Profile}
use task_control.Configuration.Resolution.{
  ResolvedValue, resolved_value, overridden_by, ResolutionTrace, lookup, get_value, sort_profiles,
  Resolving, resolve_variables, resolve_profiles, nothing_resolved, trace_of, traced,
  resolve_configuration,
}
use task_control.Configuration.Steps.{
  Definition, definition, definitions_in, definitions, Compatible, layered, run, step, run-Ends,
  nothing-Fits,
}
use task_control.Errors.{ok, raise, error, domain_rule_violation, ◌>>=◌, >>=_cong, >>=_assoc}
use task_control.Prelude.{
  Bool-cases, str_eq, Option, some, if◌then◌else◌, String, ◌≡◌, ◌⊎◌, inl, inr, refl, sym, ap, ◌∙◌,
  none, List, [], ◌∷◌, ◌++◌,
}

run-++ : (bs cs : List Definition) (s : Resolving) → run (bs ++ cs) s ≡ (run bs s >>= run cs)
run-++ [] cs s = refl
run-++ (b ∷ bs) cs s =
    >>=_cong (step b s) (λ s'. run-++ bs cs s') ∙ >>=_assoc (step b s) (run bs) (run cs)

resolve_variables-run :
    (layer : ConfigurationLayer) (source : String) (vs : List Variable) (s : Resolving)
    → resolve_variables layer source vs s ≡ run (definitions_in layer source vs) s
unfolding resolve_variables
resolve_variables-run layer source [] s = refl
resolve_variables-run layer source (v ∷ vs) s =
    >>=_cong (step (definition layer source v) s) (λ s'. resolve_variables-run layer source vs s')

resolve_profiles-run :
    (ps : List Profile) (s : Resolving) → resolve_profiles ps s ≡ run (definitions ps) s
unfolding resolve_profiles
resolve_profiles-run [] s = refl
resolve_profiles-run (p ∷ ps) s =
    ap (λ r. r >>= resolve_profiles ps) (resolve_variables-run p.layer p.name p.variables s)
    ∙ >>=_cong (run (definitions_in p.layer p.name p.variables) s)
        (λ s'. resolve_profiles-run ps s')
    ∙ sym (run-++ (definitions_in p.layer p.name p.variables) (definitions ps) s)

-- The value of a name, by its definitions in order: `earlier` are the places of those that were passed,
-- and `current` is what the last of them gave.
unfoldable pub expected :
    String
    → List (ConfigurationLayer × String)
    → Option ResolvedValue
    → List Definition
    → Option ResolvedValue
expected name earlier current [] = current
expected name earlier current (b ∷ bs) =
    if str_eq b.variable.name name
    then expected name (earlier ++ (b.layer, b.source) ∷ [])
        (some (record {
          name = b.variable.name;
          layer = b.layer;
          source_profile = b.source;
          value = b.variable.value;
          secret = b.variable.secret;
          overridden = earlier;
        }))
        bs
    else expected name earlier current bs

pub layered-expected :
    (name : String) (o : Option ResolvedValue) (bs : List Definition)
    → layered name o bs ≡ expected name (overridden_by o) o bs
unfolding layered expected
layered-expected name o [] = refl
layered-expected name o (b ∷ bs) = elim (Bool-cases (str_eq b.variable.name name)) [
  | inl same ↦
      rw same (layered-expected name (some (resolved_value b.layer b.source b.variable o)) bs)
  | inr other ↦ rw other (layered-expected name o bs)
]

-- Configuration resolves exactly where no definition forbids a later one, lowest layer first: a name is
-- defined at most once at a layer, and not again behind a definition that is pinned. Then each
-- name has the value of its last definition with the earlier ones as what it overrode, and no
-- value if it has no definition. Otherwise resolution raises DomainRuleViolationError.
pub resolution_exact :
    (profiles : List Profile)
    → ((trace : ResolutionTrace) × (resolve_configuration profiles ≡ ok trace)
        × Compatible (definitions (sort_profiles profiles))
        × ((name : String)
            → get_value trace name ≡ expected name [] none (definitions (sort_profiles profiles))))
      ⊎ ((message : String) × (resolve_configuration profiles
            ≡ raise (error domain_rule_violation message))
          × (Compatible (definitions (sort_profiles profiles)) → ⊥))
unfolding resolve_configuration get_value lookup
resolution_exact profiles =
    let ordered = sort_profiles profiles in
    let same = resolve_profiles-run ordered nothing_resolved in
    elim (run-Ends (definitions ordered) nothing_resolved) [
      | inl (s, e, fits, compatible, values) ↦ inl (
        trace_of ordered s,
        ap (traced ordered) (same ∙ e),
        compatible,
        λ name. values name ∙ layered-expected name none (definitions ordered),
      )
      | inr (message, e, fails) ↦ inr (
        message,
        ap (traced ordered) (same ∙ e),
        λ h. fails (nothing-Fits (definitions ordered), h),
      )
    ]
