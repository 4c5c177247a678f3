-- ===== src/Configuration/Winning.antt =====
-- Who wins: the higher layer, and a pinned value over everything behind it.
use task_control.Configuration.Precedence.{resolution_exact, layered-expected}
use task_control.Configuration.Profile.{ConfigurationLayer, Variable, Profile}
use task_control.Configuration.Resolution.{
  ResolvedValue, ResolutionTrace, get_value, sort_profiles, resolved_value, resolve_configuration,
}
use task_control.Configuration.Sorting.{
  sort_profiles-AreSorted, All-sort_profiles, Any-sort_profiles,
}
use task_control.Configuration.Steps.{Definition, definition, definitions_in, definitions, layered}
use task_control.Errors.{ok}
use task_control.Prelude.{
  Any, Any-split, ◌⊎◌, String, ◌≡◌, refl, sym, ap, ◌∙◌, inl, inr, Option, none, some, List, [], ◌∷◌,
  All, All-split, All-map, str_eq, eq_iff, arith, Bool-cases,
}
use task_control.Configuration.Ordering.{
  definitions-AreOrdered, layered-IsRespected, Respects, IsRespected,
}

-- A value is what a definition of the name gives.
pub record IsFrom (name : String) (r : ResolvedValue) (b : Definition) : Type 0 where
  pub of_name : b.variable.name ≡ name
  pub layer : r.layer ≡ b.layer
  pub source : r.source_profile ≡ b.source
  pub value : r.value ≡ b.variable.value
  pub secret : r.secret ≡ b.variable.secret

-- Some variable of some profile gives the value.
abbrev pub IsDefined : List Profile → String → ResolvedValue → Type 0
IsDefined profiles name r =
    Any (λ (p : Profile). Any (λ v. IsFrom name r (definition p.layer p.name v)) p.variables)
      profiles

-- The value against a definition of its name, and where it is from.
abbrev pub IsWinner : List Profile → ResolutionTrace → Definition → Type 0
IsWinner profiles trace b =
    (r : ResolvedValue) × (get_value trace b.variable.name ≡ some r)
    × Respects r b
    × IsDefined profiles b.variable.name r

layered_origin :
    (name : String) (o : Option ResolvedValue) (bs : List Definition) (r : ResolvedValue)
    → layered name o bs ≡ some r
    → (o ≡ some r) ⊎ Any (IsFrom name r) bs
unfolding layered
layered_origin name o [] r h = inl h
layered_origin name o (b ∷ bs) r h = elim (Bool-cases (str_eq b.variable.name name)) [
  | inr other ↦ elim (layered_origin name o bs r (sym (rw other refl) ∙ h)) [
    | inl before ↦ inl before
    | inr later ↦ inr (inr later)
  ]
  | inl same ↦
      let value = resolved_value b.layer b.source b.variable o in
      elim (layered_origin name (some value) bs r (sym (rw same refl) ∙ h)) [
        | inr later ↦ inr (inr later)
        | inl here ↦ inr (
            inl (record {
              of_name = (eq_iff b.variable.name name).0 same;
              layer = ground (arith, here);
              source = ground (arith, here);
              value = ground (arith, here);
              secret = ground (arith, here);
            }))
      ]
]

by_some_variable :
    (P : Definition → Type 0) (layer : ConfigurationLayer) (source : String) (vs : List Variable)
    → Any P (definitions_in layer source vs)
    → Any (λ v. P (definition layer source v)) vs
by_some_variable P layer source [] h = h
by_some_variable P layer source (v ∷ vs) (inl here) = inl here
by_some_variable P layer source (v ∷ vs) (inr later) =
    inr (by_some_variable P layer source vs later)

by_some_profile :
    (P : Definition → Type 0) (ps : List Profile)
    → Any P (definitions ps)
    → Any (λ (p : Profile). Any (λ v. P (definition p.layer p.name v)) p.variables) ps
by_some_profile P [] h = h
by_some_profile P (p ∷ ps) h =
    elim (Any-split P (definitions_in p.layer p.name p.variables) (definitions ps) h) [
      | inl here ↦ inl (by_some_variable P p.layer p.name p.variables here)
      | inr later ↦ inr (by_some_profile P ps later)
    ]

by_profile :
    (P : Definition → Type 0) (ps : List Profile)
    → All P (definitions ps)
    → All (λ (p : Profile). All (λ v. P (definition p.layer p.name v)) p.variables) ps
by_profile P [] h = tt
by_profile P (p ∷ ps) h =
    let both = All-split _ (definitions_in p.layer p.name p.variables) (definitions ps) h in
    (by_variable p.variables both.0, by_profile P ps both.1)
  where
    by_variable :
        (vs : List Variable)
        → All P (definitions_in p.layer p.name vs)
        → All (λ v. P (definition p.layer p.name v)) vs
    by_variable [] h' = tt
    by_variable (v ∷ vs) h' = (h'.0, by_variable vs h'.1)

-- The winner of a definition's name.
winner :
    (profiles : List Profile) (trace : ResolutionTrace)
    → ((name : String)
        → get_value trace name ≡ layered name none (definitions (sort_profiles profiles)))
    → (b : Definition)
    → IsRespected (layered b.variable.name none (definitions (sort_profiles profiles))) b
    → IsWinner profiles trace b
winner profiles trace values b (r, e, respects) =
    let ordered = sort_profiles profiles in
    elim (layered_origin b.variable.name none (definitions ordered) r e) [
      | inl nothing ↦ absurd (cc nothing)
      | inr from ↦ (
        r,
        values b.variable.name ∙ e,
        respects,
        Any-sort_profiles _ profiles (by_some_profile (IsFrom b.variable.name r) ordered from),
      )
    ]

-- Where configuration resolves, every variable of every profile, in whatever order the profiles were
-- given, has a value for its name. The value, the secret, the layer and the profile are those of one
-- variable of that name in the profiles, of this variable's layer or of a higher one, and of this
-- variable itself where it is pinned.
pub highest_layer_wins :
    (profiles : List Profile) (trace : ResolutionTrace)
    → resolve_configuration profiles ≡ ok trace
    → All
        (λ (p : Profile).
          All (λ v. IsWinner profiles trace (definition p.layer p.name v)) p.variables)
        profiles
highest_layer_wins profiles trace h = elim (resolution_exact profiles) [
  | inr (message, e, _) ↦ absurd (cc (h, e))
  | inl (t, e, compatible, values) ↦
      let ordered = sort_profiles profiles in
      let same : t ≡ trace = ground (arith, h, e) in
      let found : (name : String) → get_value trace name ≡ layered name none (definitions ordered) =
        λ name.
          sym (ap (λ (x : ResolutionTrace). get_value x name) same)
          ∙ values name
          ∙ sym (layered-expected name none (definitions ordered)) in
      let respected =
        All-map _ (IsWinner profiles trace) (definitions ordered)
          (λ b k. winner profiles trace found b (k none))
          (layered-IsRespected (definitions ordered)
            (definitions-AreOrdered ordered (sort_profiles-AreSorted profiles)) compatible) in
      All-sort_profiles _ profiles (by_profile _ ordered respected)
]
