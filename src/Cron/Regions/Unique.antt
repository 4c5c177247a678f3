-- ===== src/Cron/Regions/Unique.antt =====
-- `_assert_unique` accepts exactly the regions of pairwise different tasks.
use task_control.Cron.Regions.{ManagedRegion, assert_unique}
use task_control.Errors.{ok}
use task_control.Prelude.{
  String, ◌≡◌, refl, ◌≢◌, ◌↔◌, inl, inr, false, List, [], ◌∷◌, All, any, str_eq, eq_iff, arith,
  Bool-cases,
}

abbrev pub Differs : String → List String → Type 0
Differs id ids = All (λ other. id ≢ other) ids

-- No two regions have the same task.
abbrev pub AreDistinct : List ManagedRegion → Type 0
AreDistinct [] = Unit {0}
AreDistinct (r ∷ rs) = All (λ s. s.task_id ≢ r.task_id) rs × AreDistinct rs

any-Differs : (id : String) (ids : List String) → (any (str_eq id) ids ≡ false) ↔ Differs id ids
any-Differs id [] = ((λ h. tt), λ h. refl)
any-Differs id (other ∷ ids) = (
  (λ h. ((λ e. ground (arith, eq_iff id other)), (any-Differs id ids).0 (ground arith))),
  λ h. ground (arith, eq_iff id other, h.0, (any-Differs id ids).1 h.1),
)

All-both :
    {A : Type 0} (P Q : A → Type 0) (xs : List A) → All (λ x. P x × Q x) xs ↔ (All P xs × All Q xs)
All-both P Q [] = ((λ h. (tt, tt)), λ h. tt)
All-both P Q (x ∷ xs) =
    let rest = All-both P Q xs in
    (
      (λ h. ((h.0.0, (rest.0 h.1).0), (h.0.1, (rest.0 h.1).1))),
      λ h. ((h.0.0, h.1.0), rest.1 (h.0.1, h.1.1)),
    )

pub assert_unique-ok :
    (seen : List String) (rs : List ManagedRegion)
    → (assert_unique seen rs ≡ ok tt) ↔ (All (λ r. Differs r.task_id seen) rs × AreDistinct rs)
unfolding assert_unique
assert_unique-ok seen [] = ((λ h. (tt, tt)), λ h. refl)
assert_unique-ok seen (r ∷ rs) =
    let ih = assert_unique-ok (r.task_id ∷ seen) rs in
    let both =
      All-both (λ (s : ManagedRegion). s.task_id ≢ r.task_id) (λ s. Differs s.task_id seen) rs in
    elim (Bool-cases (any (str_eq r.task_id) seen)) [
      | inl e ↦ rw e ((λ h. cc), λ h. absurd (cc (e, (any-Differs r.task_id seen).1 h.0.0)))
      | inr e ↦ rw e (
        (λ h.
            let (fresh, distinct) = ih.0 h in
            let (apart, others) = both.0 fresh in
            (((any-Differs r.task_id seen).0 e, others), (apart, distinct))),
        λ h. ih.1 (both.1 (h.1.0, h.0.1), h.1.1),
      )
    ]

pub nothing_seen : (rs : List ManagedRegion) → All (λ r. Differs r.task_id []) rs
nothing_seen [] = tt
nothing_seen (r ∷ rs) = (tt, nothing_seen rs)
