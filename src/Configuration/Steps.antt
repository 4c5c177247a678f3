-- ===== src/Configuration/Steps.antt =====
-- The nested loops of `resolve_configuration` as one loop over the definitions in order, and exactly
-- when it ends without an error.
use task_control.Configuration.Profile.{ConfigurationLayer, precedence, Variable, Profile}
use task_control.Configuration.Resolution.{
  ResolvedValue, Values, lookup, assign, Resolving, is_claimed, is_pinned, resolved_value, recorded,
  resolve_variable, same_layer_message, pinned_message, nothing_resolved,
}
use task_control.Errors.{Result, ok, raise, error, domain_rule_violation, ◌>>=◌}
use task_control.Prelude.{
  ◌==◌, Bool, true, false, not, ◌&&◌, ◌||◌, String, ◌≡◌, ◌⊎◌, inl, inr, refl, sym, ap, ◌∙◌, Option,
  some, List, [], ◌∷◌, ◌++◌, All, str_eq, eq_iff, arith, if◌then◌else◌, Bool-cases,
}

-- A variable with the profile that defines it.
pub record Definition : Type 0 where
  pub layer : ConfigurationLayer
  pub source : String
  pub variable : Variable

abbrev pub definition : ConfigurationLayer → String → Variable → Definition
definition layer source v = record { layer = layer; source = source; variable = v }

abbrev pub definitions_in : ConfigurationLayer → String → List Variable → List Definition
definitions_in layer source [] = []
definitions_in layer source (v ∷ vs) = definition layer source v ∷ definitions_in layer source vs

abbrev pub definitions : List Profile → List Definition
definitions [] = []
definitions (p ∷ ps) = definitions_in p.layer p.name p.variables ++ definitions ps

-- What an earlier definition forbids: the same name at its own layer, and everywhere if it is pinned.
unfoldable pub conflicts : Definition → Definition → Bool
conflicts b c =
    str_eq b.variable.name c.variable.name
    && ((precedence b.layer == precedence c.layer) || not b.variable.overridable)

-- No definition forbids a later one.
abbrev pub Compatible : List Definition → Type 0
Compatible [] = Unit {0}
Compatible (b ∷ bs) = All (λ c. conflicts b c ≡ false) bs × Compatible bs

-- What the dictionaries forbid.
unfoldable pub forbids : Resolving → Definition → Bool
unfolding is_claimed is_pinned
forbids s b =
    is_claimed b.layer b.variable.name s.claimed_at_layer || is_pinned b.variable.name s.pinned

abbrev pub Fits : Resolving → List Definition → Type 0
Fits s bs = All (λ b. forbids s b ≡ false) bs

abbrev pub step : Definition → Resolving → Result Resolving
step b s = resolve_variable b.layer b.source b.variable s

abbrev pub run : List Definition → Resolving → Result Resolving
run [] s = ok s
run (b ∷ bs) s = step b s >>= run bs

abbrev pub after : Definition → Resolving → Resolving
after b s = recorded b.layer b.source b.variable s

-- The value of one name, by the definitions in order: the last one counts, and the earlier ones are
-- overridden.
unfoldable pub layered : String → Option ResolvedValue → List Definition → Option ResolvedValue
layered name previous [] = previous
layered name previous (b ∷ bs) =
    if str_eq b.variable.name name
    then layered name (some (resolved_value b.layer b.source b.variable previous)) bs
    else layered name previous bs

if-true : (b x : Bool) → (if b then true else x) ≡ (b || x)
if-true true x = refl
if-true false x = refl

lookup-assign :
    (name key : String) (r : ResolvedValue) (values : Values)
    → lookup name (assign key r values) ≡ (if str_eq key name then some r else lookup name values)
unfolding lookup assign
lookup-assign name key r [] = refl
lookup-assign name key r ((k, old) ∷ values) =
    ground (arith, lookup-assign name key r values, eq_iff k key, eq_iff key name, eq_iff k name)

is_claimed-∷ :
    (layer l : ConfigurationLayer) (name key source : String)
    (claims : List (ConfigurationLayer × String × String))
    → is_claimed layer name ((l, key, source) ∷ claims)
      ≡ (((precedence l == precedence layer) && str_eq key name) || is_claimed layer name claims)
unfolding is_claimed
is_claimed-∷ layer l name key source claims =
    if-true ((precedence l == precedence layer) && str_eq key name) (is_claimed layer name claims)

is_pinned-∷ :
    (overridable : Bool) (layer : ConfigurationLayer) (name key source : String)
    (pins : List (String × ConfigurationLayer × String))
    → is_pinned name (if overridable then pins else (key, layer, source) ∷ pins)
      ≡ ((str_eq key name && not overridable) || is_pinned name pins)
unfolding is_pinned
is_pinned-∷ true layer name key source pins = ground arith
is_pinned-∷ false layer name key source pins = ground arith

regroup : (a b c x y : Bool) → (((a && b) || x) || ((b && c) || y)) ≡ ((b && (a || c)) || (x || y))
regroup a b c x y = ground arith

forbids-after :
    (s : Resolving) (b c : Definition) → forbids (after b s) c ≡ (conflicts b c || forbids s c)
unfolding forbids conflicts
forbids-after s b c =
    let claim =
      is_claimed-∷ c.layer b.layer c.variable.name b.variable.name b.source s.claimed_at_layer in
    let pin =
      is_pinned-∷ b.variable.overridable b.layer c.variable.name b.variable.name b.source
        s.pinned in
    ap (λ x. x || is_pinned c.variable.name (after b s).pinned) claim
    ∙ ap
        (λ x.
          (((precedence b.layer == precedence c.layer) && str_eq b.variable.name c.variable.name)
            || is_claimed c.layer c.variable.name s.claimed_at_layer)
          || x)
        pin
    ∙ regroup (precedence b.layer == precedence c.layer) (str_eq b.variable.name c.variable.name)
        (not b.variable.overridable) (is_claimed c.layer c.variable.name s.claimed_at_layer)
        (is_pinned c.variable.name s.pinned)

step-ok : (b : Definition) (s : Resolving) → forbids s b ≡ false → step b s ≡ ok (after b s)
unfolding forbids resolve_variable
step-ok b s h = ground (arith, h)

step-raises :
    (b : Definition) (s : Resolving)
    → forbids s b ≡ true
    → (message : String) × (step b s ≡ raise (error domain_rule_violation message))
unfolding forbids resolve_variable
step-raises b s h = elim (Bool-cases (is_claimed b.layer b.variable.name s.claimed_at_layer)) [
  | inl claimed ↦ (same_layer_message, ground (arith, claimed))
  | inr free ↦ (pinned_message, ground (arith, free, h))
]

free_after :
    (s : Resolving) (b : Definition) (cs : List Definition)
    → Fits (after b s) cs
    → All (λ c. conflicts b c ≡ false) cs × Fits s cs
free_after s b [] h = (tt, tt)
free_after s b (c ∷ cs) h =
    let (free, fits) = free_after s b cs h.1 in
    let e = sym (forbids-after s b c) ∙ h.0 in
    ((ground (arith, e), free), (ground (arith, e), fits))

Fits-after :
    (s : Resolving) (b : Definition) (cs : List Definition)
    → All (λ c. conflicts b c ≡ false) cs
    → Fits s cs
    → Fits (after b s) cs
Fits-after s b [] free fits = tt
Fits-after s b (c ∷ cs) free fits =
    (forbids-after s b c ∙ rw free.0 fits.0, Fits-after s b cs free.1 fits.1)

layered-after :
    (name : String) (b : Definition) (s : Resolving) (bs : List Definition)
    → layered name
        (if str_eq b.variable.name name
          then some (resolved_value b.layer b.source b.variable (lookup b.variable.name s.resolved))
          else lookup name s.resolved)
        bs
      ≡ layered name (lookup name s.resolved) (b ∷ bs)
unfolding layered
layered-after name b s bs = ground (arith, eq_iff b.variable.name name)

-- What the loop comes to.
abbrev pub Ends : List Definition → Resolving → Type 0
Ends bs s =
    ((s' : Resolving) × (run bs s ≡ ok s')
      × Fits s bs
      × Compatible bs
      × ((name : String) → lookup name s'.resolved ≡ layered name (lookup name s.resolved) bs))
    ⊎ ((message : String) × (run bs s ≡ raise (error domain_rule_violation message))
        × ((Fits s bs × Compatible bs) → ⊥))

pub run-Ends : (bs : List Definition) (s : Resolving) → Ends bs s
unfolding layered
run-Ends [] s = inl (s, refl, tt, tt, λ _. refl)
run-Ends (b ∷ bs) s = elim (Bool-cases (forbids s b)) [
  | inl stop ↦
      let (message, e) = step-raises b s stop in
      inr (message, ap (λ r. r >>= run bs) e, λ h. absurd (cc (stop, h.0.0)))
  | inr go ↦
      let same : run (b ∷ bs) s ≡ run bs (after b s) = ap (λ r. r >>= run bs) (step-ok b s go) in
      elim (run-Ends bs (after b s)) [
        | inl (s', e, fits, compatible, values) ↦
            let (free, fits') = free_after s b bs fits in
            inl (
              s',
              same ∙ e,
              (go, fits'),
              (free, compatible),
              λ name.
                  values name
                  ∙ ap (λ o. layered name o bs) (lookup-assign name b.variable.name _ s.resolved)
                  ∙ layered-after name b s bs,
            )
        | inr (message, e, fails) ↦
            inr (message, same ∙ e, λ h. fails (Fits-after s b bs h.1.0 h.0.1, h.1.1))
      ]
]

pub nothing-Fits : (bs : List Definition) → Fits nothing_resolved bs
unfolding forbids is_claimed is_pinned
nothing-Fits [] = tt
nothing-Fits (b ∷ bs) = (refl, nothing-Fits bs)
