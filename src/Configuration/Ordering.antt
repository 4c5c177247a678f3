-- ===== src/Configuration/Ordering.antt =====
-- The definitions in the order of their layers, and what the value of a name is against each of them
-- (src/taskcontrol/domain/configuration/profiles.py).
use task_control.Configuration.Profile.{ConfigurationLayer, precedence, Variable, Profile}
use task_control.Configuration.Resolution.{ResolvedValue, resolved_value}
use task_control.Configuration.Sorting.{AreSorted}
use task_control.Configuration.Steps.{
  Definition, definitions_in, definitions, conflicts, Compatible, layered,
}
use task_control.Prelude.{
  ◌≤◌, Bool, true, false, not, ◌&&◌, ◌||◌, String, ◌≡◌, refl, sym, ◌∙◌, inl, inr, Option, some,
  List, [], ◌∷◌, ◌++◌, All, All-append, All-map, str_eq, eq_iff, arith, if◌then◌else◌, Bool-cases,
}
use mathlib.Core.Path.{subst}

abbrev pub IsNotBelow : ConfigurationLayer → Definition → Type 0
IsNotBelow layer b = precedence layer ≤ precedence b.layer

-- Each definition is of the layers of those before it or higher.
abbrev pub AreOrdered : List Definition → Type 0
AreOrdered [] = Unit {0}
AreOrdered (b ∷ bs) = All (IsNotBelow b.layer) bs × AreOrdered bs

-- A value against a definition of its name.
pub record Respects (r : ResolvedValue) (b : Definition) : Type 0 where
  pub highest : precedence b.layer ≤ precedence r.layer
  pub pinned :
      b.variable.overridable ≡ false
      → (r.source_profile ≡ b.source)
        × (r.value ≡ b.variable.value)
        × (r.secret ≡ b.variable.secret)

abbrev pub IsRespected : Option ResolvedValue → Definition → Type 0
IsRespected found b = (r : ResolvedValue) × (found ≡ some r) × Respects r b

definitions_in-IsNotBelow :
    (lower layer : ConfigurationLayer) (source : String) (vs : List Variable)
    → precedence lower ≤ precedence layer
    → All (IsNotBelow lower) (definitions_in layer source vs)
definitions_in-IsNotBelow lower layer source [] h = tt
definitions_in-IsNotBelow lower layer source (v ∷ vs) h =
    (h, definitions_in-IsNotBelow lower layer source vs h)

definitions-IsNotBelow :
    (lower : ConfigurationLayer) (ps : List Profile)
    → All (λ (q : Profile). precedence lower ≤ precedence q.layer) ps
    → All (IsNotBelow lower) (definitions ps)
definitions-IsNotBelow lower [] h = tt
definitions-IsNotBelow lower (p ∷ ps) h =
    All-append _ (definitions_in p.layer p.name p.variables) (definitions ps)
      (definitions_in-IsNotBelow lower p.layer p.name p.variables h.0)
      (definitions-IsNotBelow lower ps h.1)

definitions_in-AreOrdered :
    (layer : ConfigurationLayer) (source : String) (vs : List Variable) (rest : List Definition)
    → All (IsNotBelow layer) rest
    → AreOrdered rest
    → AreOrdered (definitions_in layer source vs ++ rest)
definitions_in-AreOrdered layer source [] rest above ordered = ordered
definitions_in-AreOrdered layer source (v ∷ vs) rest above ordered = (
  All-append _ (definitions_in layer source vs) rest
      (definitions_in-IsNotBelow layer layer source vs (omega arith)) above,
  definitions_in-AreOrdered layer source vs rest above ordered,
)

pub definitions-AreOrdered : (ps : List Profile) → AreSorted ps → AreOrdered (definitions ps)
definitions-AreOrdered [] h = tt
definitions-AreOrdered (p ∷ ps) h =
    definitions_in-AreOrdered p.layer p.name p.variables (definitions ps)
      (definitions-IsNotBelow p.layer ps h.0) (definitions-AreOrdered ps h.1)

-- The value of a name before a definition and behind it.
next : String → Option ResolvedValue → Definition → Option ResolvedValue
next name previous b =
    if str_eq b.variable.name name
    then some (resolved_value b.layer b.source b.variable previous)
    else previous

layered-∷ :
    (name : String) (previous : Option ResolvedValue) (b : Definition) (bs : List Definition)
    → layered name previous (b ∷ bs) ≡ layered name (next name previous b) bs
unfolding layered next
layered-∷ name previous b bs = ground arith

layered_above :
    (name : String) (r : ResolvedValue) (bs : List Definition)
    → All (IsNotBelow r.layer) bs
    → AreOrdered bs
    → (r' : ResolvedValue) × (layered name (some r) bs ≡ some r')
      × (precedence r.layer ≤ precedence r'.layer)
unfolding layered
layered_above name r [] above ordered = (r, refl, omega arith)
layered_above name r (b ∷ bs) above ordered = elim (Bool-cases (str_eq b.variable.name name)) [
  | inl same ↦
      let (r', e, le) =
        layered_above name (resolved_value b.layer b.source b.variable (some r)) bs ordered.0
          ordered.1 in
      (r', rw same e, omega (arith, le, above.0))
  | inr other ↦ let (r', e, le) = layered_above name r bs above.1 ordered.1 in (r', rw other e, le)
]

-- A pinned definition forbids its own name.
pinned_name :
    (b c : Definition)
    → b.variable.overridable ≡ false
    → conflicts b c ≡ false
    → str_eq c.variable.name b.variable.name ≡ false
unfolding conflicts
pinned_name b c pinned free = elim (Bool-cases (str_eq c.variable.name b.variable.name)) [
  | inr other ↦ other
  | inl same ↦
      let named =
        (eq_iff b.variable.name c.variable.name).1
          (sym ((eq_iff c.variable.name b.variable.name).0 same)) in
      absurd (
        forbidden (str_eq b.variable.name c.variable.name) _ b.variable.overridable named pinned
          free)
]
  where
    forbidden : (n l o : Bool) → n ≡ true → o ≡ false → (n && (l || not o)) ≡ false → ⊥
    forbidden n l o hn ho h = ground (arith, hn, ho, h)

layered_pinned :
    (found : Option ResolvedValue) (b : Definition) (bs : List Definition)
    → b.variable.overridable ≡ false
    → All (λ c. conflicts b c ≡ false) bs
    → layered b.variable.name found bs ≡ found
unfolding layered
layered_pinned found b [] pinned free = refl
layered_pinned found b (c ∷ cs) pinned free =
    rw (pinned_name b c pinned free.0) (layered_pinned found b cs pinned free.1)

first_IsRespected :
    (b : Definition) (bs : List Definition)
    → AreOrdered (b ∷ bs)
    → Compatible (b ∷ bs)
    → (previous : Option ResolvedValue) → IsRespected (layered b.variable.name previous (b ∷ bs)) b
unfolding layered
first_IsRespected b bs ordered compatible previous =
    let value = resolved_value b.layer b.source b.variable previous in
    let same = (eq_iff b.variable.name b.variable.name).1 refl in
    let (r, e, le) = layered_above b.variable.name value bs ordered.0 ordered.1 in
    (
      r,
      rw same e,
      record {
        highest = le;
        pinned = λ fixed.
            let kept = sym (layered_pinned (some value) b bs fixed compatible.0) ∙ e in
            ground (arith, kept);
      },
    )

pub layered-IsRespected :
    (bs : List Definition)
    → AreOrdered bs
    → Compatible bs
    → All
        (λ b.
          (previous : Option ResolvedValue) → IsRespected (layered b.variable.name previous bs) b)
        bs
layered-IsRespected [] ordered compatible = tt
layered-IsRespected (b ∷ bs) ordered compatible = (
  first_IsRespected b bs ordered compatible,
  All-map _ _ bs
      (λ c h previous.
        subst (λ o. IsRespected o c) (sym (layered-∷ c.variable.name previous b bs))
          (h (next c.variable.name previous b)))
      (layered-IsRespected bs ordered.1 compatible.1),
)
