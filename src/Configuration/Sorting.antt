-- ===== src/Configuration/Sorting.antt =====
-- The order of the profiles: `sorted` puts them by layer and keeps every one.
use task_control.Configuration.Profile.{precedence, Profile}
use task_control.Configuration.Resolution.{insert_profile, sort_profiles}
use mathlib.Core.Path.{subst}
use task_control.Prelude.{
  Any, ◌⊎◌, ap, if◌then◌else◌, ◌≤◌, leb, leb→le, not_leb→le, ◌↔◌, inl, inr, List, [], ◌∷◌, All,
  arith, Bool-cases,
}

abbrev pub AreSorted : List Profile → Type 0
AreSorted [] = Unit {0}
AreSorted (p ∷ ps) = All (λ q. precedence p.layer ≤ precedence q.layer) ps × AreSorted ps

All-insert_profile :
    (P : Profile → Type 0) (p : Profile) (qs : List Profile)
    → (P p × All P qs) ↔ All P (insert_profile p qs)
unfolding insert_profile
All-insert_profile P p [] = ((λ h. h), λ h. h)
All-insert_profile P p (q ∷ qs) =
    let rest = All-insert_profile P p qs in
    elim (Bool-cases (leb (precedence p.layer) (precedence q.layer))) [
      | inl here ↦ rw here ((λ h. h), λ h. h)
      | inr later ↦
          rw later
            ((λ h. (h.1.0, rest.0 (h.0, h.1.1))), λ h. ((rest.1 h.1).0, (h.0, (rest.1 h.1).1)))
    ]

insert_profile-AreSorted :
    (p : Profile) (qs : List Profile) → AreSorted qs → AreSorted (insert_profile p qs)
unfolding insert_profile
insert_profile-AreSorted p [] h = (tt, tt)
insert_profile-AreSorted p (q ∷ qs) h =
    elim (Bool-cases (leb (precedence p.layer) (precedence q.layer))) [
      | inl here ↦
          let le = leb→le (precedence p.layer) (precedence q.layer) here in
          rw here ((le, above le qs h.0), h)
      | inr later ↦ rw later (
        (All-insert_profile _ p qs).0
            (omega (arith, not_leb→le (precedence p.layer) (precedence q.layer) later), h.0),
        insert_profile-AreSorted p qs h.1,
      )
    ]
  where
    above :
        precedence p.layer ≤ precedence q.layer
        → (rs : List Profile) → All (λ r. precedence q.layer ≤ precedence r.layer) rs
        → All (λ r. precedence p.layer ≤ precedence r.layer) rs
    above le [] h = tt
    above le (r ∷ rs) h = (omega (arith, le, h.0), above le rs h.1)

pub sort_profiles-AreSorted : (ps : List Profile) → AreSorted (sort_profiles ps)
unfolding sort_profiles
sort_profiles-AreSorted [] = tt
sort_profiles-AreSorted (p ∷ ps) =
    insert_profile-AreSorted p (sort_profiles ps) (sort_profiles-AreSorted ps)

Any-insert_profile :
    (P : Profile → Type 0) (p : Profile) (qs : List Profile)
    → Any P (insert_profile p qs)
    → P p ⊎ Any P qs
unfolding insert_profile
Any-insert_profile P p [] h = h
Any-insert_profile P p (q ∷ qs) h =
    elim (Bool-cases (leb (precedence p.layer) (precedence q.layer))) [
      | inl here ↦
          subst (Any P) (ap (λ b. if b then p ∷ q ∷ qs else q ∷ insert_profile p qs) here) h
      | inr later ↦
          elim (subst (Any P) (ap (λ b. if b then p ∷ q ∷ qs else q ∷ insert_profile p qs) later)
            h) [
              | inl first ↦ inr (inl first)
              | inr rest ↦ elim (Any-insert_profile P p qs rest) [
                | inl own ↦ inl own
                | inr other ↦ inr (inr other)
              ]
            ]
    ]

pub Any-sort_profiles :
    (P : Profile → Type 0) (ps : List Profile) → Any P (sort_profiles ps) → Any P ps
unfolding sort_profiles
Any-sort_profiles P [] h = h
Any-sort_profiles P (p ∷ ps) h = elim (Any-insert_profile P p (sort_profiles ps) h) [
  | inl own ↦ inl own
  | inr other ↦ inr (Any-sort_profiles P ps other)
]

pub All-sort_profiles :
    (P : Profile → Type 0) (ps : List Profile) → All P (sort_profiles ps) → All P ps
unfolding sort_profiles
All-sort_profiles P [] h = tt
All-sort_profiles P (p ∷ ps) h =
    let both = (All-insert_profile P p (sort_profiles ps)).1 h in
    (both.0, All-sort_profiles P ps both.1)
