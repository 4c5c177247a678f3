-- ===== src/Cron/Regions/Exactly.antt =====
-- `find_managed_regions` as an equivalence with the grammar of pieces.
use task_control.Cron.Regions.{ManagedRegion, find_managed_regions, scan, assert_unique}
use task_control.Cron.Regions.Finding.{scan-Reads}
use task_control.Cron.Regions.Pieces.{Piece, lines_of, regions_of, IsRead, scan-lines_of}
use task_control.Cron.Regions.Unique.{AreDistinct, assert_unique-ok, nothing_seen}
use task_control.Errors.{Result, ok, raise, ◌>>=◌, ◌>>◌}
use task_control.Prelude.{String, ◌≡◌, refl, ap, sym, ◌∙◌, ◌↔◌, none, List, [], map, All, arith}
use mathlib.Core.Path.{subst}
use task_control.Text.Lines.{chop, splitlines, splitlines_keepends}

-- A crontab is a sequence of foreign lines and regions of different tasks.
pub record IsSequence (content : String) (ps : List Piece) : Type 0 where
  pub whole : lines_of ps ≡ splitlines_keepends content
  pub read : All IsRead ps
  pub distinct : AreDistinct (regions_of 0 ps)

check-ok :
    (check : Result (Unit {0})) (rs : List ManagedRegion) {regions : List ManagedRegion}
    → (check >> ok rs) ≡ ok regions
    → (check ≡ ok tt) × (rs ≡ regions)
check-ok (ok tt) rs h = (refl, ground (arith, h))
check-ok (raise e) rs h = cc

-- What the check for duplicates lets pass.
pub checked-ok :
    (found : Result (List ManagedRegion)) {regions : List ManagedRegion}
    → (found >>= λ rs. assert_unique [] rs >> ok rs) ≡ ok regions
    → (found ≡ ok regions) × (assert_unique [] regions ≡ ok tt)
checked-ok (raise e) h = cc
checked-ok (ok rs) h =
    let (passed, e) = check-ok (assert_unique [] rs) rs h in
    (ap ok e, subst (λ r. assert_unique [] r ≡ ok tt) e passed)

-- A text is accepted exactly where its lines are a sequence of foreign lines and regions, each region
-- with a begin marker, lines that are no markers and an end marker of the same task, and no two
-- regions are of one task; what is returned are those regions, in order, with their places.
pub find_exact :
    (content : String) (regions : List ManagedRegion)
    → (find_managed_regions content ≡ ok regions)
      ↔ ((ps : List Piece) × IsSequence content ps × (regions_of 0 ps ≡ regions))
unfolding find_managed_regions splitlines
find_exact content regions = (accepted, complete)
  where
    accepted :
        find_managed_regions content ≡ ok regions
        → (ps : List Piece) × IsSequence content ps × (regions_of 0 ps ≡ regions)
    accepted h =
        let (found, unique) = checked-ok (scan 0 none (splitlines content)) h in
        let (ps, whole, read, regions_found) =
          scan-Reads 0 none (splitlines_keepends content) found in
        let distinct = ((assert_unique-ok [] regions).0 unique).1 in
        (
          ps,
          record { whole = whole; read = read; distinct = rw regions_found distinct },
          regions_found,
        )

    complete :
        (ps : List Piece) × IsSequence content ps × (regions_of 0 ps ≡ regions)
        → find_managed_regions content ≡ ok regions
    complete (ps, s, found) =
        let scanned : scan 0 none (map chop (splitlines_keepends content)) ≡ ok (regions_of 0 ps) =
          ap (λ ls. scan 0 none (map chop ls)) (sym s.whole) ∙ scan-lines_of 0 ps s.read in
        let unique = (assert_unique-ok [] (regions_of 0 ps)).1 (nothing_seen _, s.distinct) in
        rw (scanned, unique, found) refl
