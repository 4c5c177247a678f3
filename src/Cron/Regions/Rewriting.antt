-- ===== src/Cron/Regions/Rewriting.antt =====
-- What `replace_region` and `remove_region` do to the lines of a crontab.
use task_control.Cron.Regions.{
  ManagedRegion, find_managed_regions, region_of, replace_region, remove_region, splice, replace_at,
  remove_at,
}
use task_control.Cron.Regions.Appending.{IsAppended, append_to-IsAppended}
use task_control.Cron.Regions.Exactly.{IsSequence, find_exact}
use task_control.Cron.Regions.Locating.{
  region_of-IsFirst, lines_before, lines_found, lines_after, lines_of-IsFirst, start-IsFirst,
  extent-IsFirst, splice-IsFirst,
}
use task_control.Cron.Regions.Pieces.{Piece, regions_of}
use task_control.Errors.{Result, ok, raise, Exception, ◌>>=◌}
use task_control.Prelude.{
  String, ◌≡◌, refl, sym, ◌∙◌, inl, inr, Option, none, some, List, [], ◌++◌, map, length, concat,
  ◌<>◌, Option-cases,
}
use mathlib.Core.Path.{subst}
use task_control.Text.Lines.{chop, splitlines_keepends}
use task_control.Text.Splitting.{concat-splitlines_keepends}

-- Lines of a crontab are replaced: those of a region, by other text.
pub record IsRewritten (content middle : String) (r : ManagedRegion) (updated : String)
    : Type 0 where
  pub before : List String
  pub old : List String
  pub after : List String
  pub whole : splitlines_keepends content ≡ before ++ (old ++ after)
  pub place : length before ≡ r.start
  pub extent : map chop old ≡ r.lines
  pub result : updated ≡ concat before <> middle <> concat after

-- The splice at a region that was found.
splice-IsRewritten :
    (content slug : String) (ps : List Piece) (middle : List String) {r : ManagedRegion}
    → IsSequence content ps
    → region_of slug (regions_of 0 ps) ≡ some r
    → IsRewritten content
        (concat middle)
        r
        (splice r.start r.end middle (splitlines_keepends content))
splice-IsRewritten content slug ps middle {r} s h =
    let f = region_of-IsFirst slug 0 ps h in
    record {
      before = lines_before slug ps f;
      old = lines_found slug ps f;
      after = lines_after slug ps f;
      whole = sym s.whole ∙ lines_of-IsFirst slug ps f;
      place = sym (start-IsFirst slug ps f);
      extent = extent-IsFirst slug ps f;
      result = rw (← s.whole) (splice-IsFirst slug ps f middle);
    }

-- What a rewriting of a task's region can come to. `Absent` says of the text what it is where there is no
-- region.
pub data Rewrites (content slug middle : String) (Absent : String → Type 0)
    : Result String → Type 0 where
  refused :
      (e : Exception)
      → find_managed_regions content ≡ raise e
      → Rewrites content slug middle Absent (raise e)
  not_there :
      (regions : List ManagedRegion) (updated : String)
      → find_managed_regions content ≡ ok regions
      → region_of slug regions ≡ none
      → Absent updated
      → Rewrites content slug middle Absent (ok updated)
  rewritten :
      (regions : List ManagedRegion) (r : ManagedRegion) (updated : String)
      → find_managed_regions content ≡ ok regions
      → region_of slug regions ≡ some r
      → IsRewritten content middle r updated
      → Rewrites content slug middle Absent (ok updated)

module _ (content slug : String) (middle : List String) (Absent : String → Type 0) where
  -- What both operations do with the regions that were found.
  region_of-Rewrites :
      (act : Option ManagedRegion → String)
      → Absent (act none)
      → ((r : ManagedRegion)
          → act (some r) ≡ splice r.start r.end middle (splitlines_keepends content))
      → (found : Result (List ManagedRegion)) → find_managed_regions content ≡ found
      → Rewrites content slug
          (concat middle)
          Absent
          (found >>= λ regions. ok (act (region_of slug regions)))
  region_of-Rewrites act at_none at_some (raise e) raised = refused e raised
  region_of-Rewrites act at_none at_some (ok regions) found =
      elim (Option-cases (region_of slug regions)) [
        | inl missing ↦ rw missing (not_there regions (act none) found missing at_none)
        | inr (r, there) ↦
            let (ps, s, same) = (find_exact content regions).0 found in
            rw (there, at_some r)
              (rewritten regions r _ found there
                (splice-IsRewritten content slug ps middle s (rw (same, there) refl)))
      ]

-- `replace_region` raises what `find_managed_regions` raises, and nothing else. Otherwise, where the
-- task has no region, the rendered text is appended, behind a newline if the text does not end with
-- one; where it has, its first region's lines, from the begin marker to the end marker, become the
-- rendered text, and every line before and behind them is kept as it was.
pub replace_exact :
    (content slug rendered : String)
    → Rewrites content slug rendered
        (IsAppended content rendered)
        (replace_region content slug rendered)
unfolding replace_region
replace_exact content slug rendered =
    subst
      (λ middle.
        Rewrites content slug middle (IsAppended content rendered)
          (replace_region content slug rendered))
      (concat-splitlines_keepends rendered)
      (region_of-Rewrites content slug (splitlines_keepends rendered) (IsAppended content rendered)
        (replace_at content rendered) (append_to-IsAppended content rendered) (λ r. refl)
        (find_managed_regions content) refl)

-- `remove_region` raises what `find_managed_regions` raises, and nothing else. Otherwise, where the
-- task has no region, the text stays as it is; where it has, exactly the lines of its first region
-- are gone.
pub remove_exact :
    (content slug : String)
    → Rewrites content slug "" (λ text. text ≡ content) (remove_region content slug)
unfolding remove_region concat
remove_exact content slug =
    region_of-Rewrites content slug [] (λ text. text ≡ content) (remove_at content) refl (λ r. refl)
      (find_managed_regions content) refl
