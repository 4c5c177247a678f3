-- ===== src/Cron/Regions/Registry.antt =====
-- What a crontab promises, without its text: the tasks that are deployed in it, each with the identity
-- of what was deployed.
use task_control.Cron.Markers.{Identity}
use task_control.Cron.Regions.{ManagedRegion, region_of}
use task_control.Cron.Regions.Pieces.{Piece, foreign, region, regions_of}
use task_control.Cron.Regions.Unique.{AreDistinct}
use task_control.Prelude.{
  ℕ, suc, ◌+◌, String, ◌≡◌, ◌≢◌, refl, ap, none, List, [], ◌∷◌, ◌++◌, map, length, All, arith,
  if◌then◌else◌, str_eq, eq_iff,
}

pub identity_of_region : ManagedRegion → Identity
identity_of_region r = record { slug = r.slug; task_id = r.task_id; digest = r.digest }

-- The identities in a crontab, in order.
unfoldable pub registry : List ManagedRegion → List Identity
unfolding identity_of_region
registry = map identity_of_region

-- Deploying puts the new identity in the place of the task's old one, or at the end.
unfoldable pub install : Identity → List Identity → List Identity
install i [] = i ∷ []
install i (j ∷ js) = let rest = install i js in if str_eq j.slug i.slug then i ∷ js else j ∷ rest

-- No two entries are of one task.
abbrev pub HasOwnTasks : List Identity → Type 0
HasOwnTasks [] = Unit {0}
HasOwnTasks (i ∷ is) = All (λ j. j.task_id ≢ i.task_id) is × HasOwnTasks is

abbrev pub identities : List Piece → List Identity
identities [] = []
identities (foreign line ∷ ps) = identities ps
identities (region i first body last ∷ ps) = i ∷ identities ps

pub registry-regions_of :
    (start : ℕ) (ps : List Piece) → registry (regions_of start ps) ≡ identities ps
unfolding registry
registry-regions_of start [] = refl
registry-regions_of start (foreign line ∷ ps) = registry-regions_of (suc start) ps
registry-regions_of start (region i first body last ∷ ps) =
    ap (λ is. i ∷ is) (registry-regions_of (start + suc (suc (length body))) ps)

pub identities-append :
    (ps qs : List Piece) → identities (ps ++ qs) ≡ identities ps ++ identities qs
identities-append [] qs = refl
identities-append (foreign line ∷ ps) qs = identities-append ps qs
identities-append (region i first body last ∷ ps) qs = ap (λ is. i ∷ is) (identities-append ps qs)

others-AreDistinct :
    (id : String) (rs : List ManagedRegion)
    → All (λ j. j.task_id ≢ id) (registry rs)
    → All (λ r. r.task_id ≢ id) rs
unfolding registry
others-AreDistinct id [] h = tt
others-AreDistinct id (r ∷ rs) h = (h.0, others-AreDistinct id rs h.1)

pub registry-AreDistinct : (rs : List ManagedRegion) → HasOwnTasks (registry rs) → AreDistinct rs
unfolding registry
registry-AreDistinct [] h = tt
registry-AreDistinct (r ∷ rs) h = (others-AreDistinct r.task_id rs h.0, registry-AreDistinct rs h.1)

-- Where the task has no entry among the first, it is installed behind them.
pub install-append :
    (i : Identity) (start : ℕ) (before : List Piece) (js : List Identity)
    → region_of i.slug (regions_of start before) ≡ none
    → install i (identities before ++ js) ≡ identities before ++ install i js
unfolding region_of install
install-append i start [] js h = refl
install-append i start (foreign line ∷ before) js h = install-append i (suc start) before js h
install-append i start (region j first body last ∷ before) js h =
    ground (arith, h, install-append i (start + suc (suc (length body))) before js)

pub install_over :
    (i j : Identity) (js : List Identity) → j.slug ≡ i.slug → install i (j ∷ js) ≡ i ∷ js
unfolding install
install_over i j js h = ground (arith, h, (eq_iff j.slug i.slug).1 h)
