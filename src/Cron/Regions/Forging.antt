-- ===== src/Cron/Regions/Forging.antt =====
-- A description that reads as a marker.
use task_control.Cron.Artefact.{DesiredArtefact}
use task_control.Cron.Markers.{Identity, begin_marker, end_marker}
use task_control.Cron.Regions.{
  ManagedRegion, find_managed_regions, read_line, begins, scan, remove_region,
}
use task_control.Cron.Regions.Exactly.{checked-ok}
use task_control.Cron.Regions.Finding.{nested_begin}
use task_control.Cron.Regions.Pieces.{scan-begin}
use task_control.Cron.Regions.Rendered.{
  artefact_identity, begin_marker-HasNoBreak, end_marker-HasNoBreak, read_line-begin_marker,
}
use task_control.Cron.Rendering.{crontab_entry, description_comment, render_crontab_region}
use task_control.Errors.{Result, Result-cases, Exception, ok, raise}
use task_control.Prelude.{
  String, ◌≡◌, ◌≢◌, refl, sym, ◌∙◌, false, none, List, [], ◌∷◌, All, ◌<>◌, is_blank,
}
use task_control.Text.Lines.{splitlines, join_lines, split, join_words, has_no_break}
use task_control.Text.Matching.{IsToken}
use task_control.Text.Splitting.{HasNoBreak, splitlines-join_lines}
use task_control.Text.Words.{collapsed-HasNoBreak}

abbrev comment_of : DesiredArtefact → String
comment_of a = "# " <> join_words (split a.description)

module _ (a : DesiredArtefact) (entry : String) (hs : IsToken a.slug) (hi : IsToken a.task_id)
    (hd : IsToken a.content_digest) (one_line : HasNoBreak entry) where
  abbrev forged_lines : List String
  forged_lines = begin_marker a ∷ comment_of a ∷ entry ∷ end_marker a.slug ∷ []

  forged_lines-HasNoBreak : All HasNoBreak forged_lines
  unfolding has_no_break
  forged_lines-HasNoBreak = (
    begin_marker-HasNoBreak a hs hi hd,
    (collapsed-HasNoBreak a.description, (one_line, (end_marker-HasNoBreak a.slug hs, tt))),
  )

  forged_refused :
      (i : Identity)
      → read_line (comment_of a) ≡ begins i
      → (regions : List ManagedRegion) → find_managed_regions (join_lines forged_lines) ≢ ok regions
  unfolding find_managed_regions
  forged_refused i forged regions h =
      let scanned = (checked-ok (scan 0 none (splitlines (join_lines forged_lines))) h).0 in
      let lines = splitlines-join_lines forged_lines forged_lines-HasNoBreak in
      let rest = comment_of a ∷ entry ∷ end_marker a.slug ∷ [] in
      nested_begin (comment_of a) 1 (entry ∷ end_marker a.slug ∷ [])
        (record { identity = artefact_identity a; open_at = 0; lines = begin_marker a ∷ [] }) i
        forged
        (sym (
            scan-begin (begin_marker a) 0 rest (artefact_identity a)
              (read_line-begin_marker a hs hi hd))
          ∙ rw lines at scanned)

  -- an operation on the regions of the text raises too
  forged_stuck :
      (i : Identity)
      → read_line (comment_of a) ≡ begins i
      → (slug updated : String) → remove_region (join_lines forged_lines) slug ≢ ok updated
  unfolding remove_region
  forged_stuck i forged slug updated h =
      Result-cases ⊥ (find_managed_regions (join_lines forged_lines))
        (λ regions found. forged_refused i forged regions found)
        (λ e raised. refuses e (rw raised at h))
    where
      refuses : (e : Exception) → ◌≢◌ {A = Result String} (raise e) (ok updated)
      refuses e h = cc

-- Where a description collapses to a line that reads as a begin marker, its artefact is rendered
-- all the same, and the text is one that nothing can be removed from: the comment opens a second
-- region inside the first, and every later reading raises.
pub description_forges_marker :
    (a : DesiredArtefact) (entry : String) (i : Identity)
    → IsToken a.slug
    → IsToken a.task_id
    → IsToken a.content_digest
    → crontab_entry a ≡ ok entry
    → HasNoBreak entry
    → is_blank a.description ≡ false
    → read_line (comment_of a) ≡ begins i
    → (text : String) × (render_crontab_region a ≡ ok text)
      × ((slug updated : String) → remove_region text slug ≢ ok updated)
unfolding render_crontab_region description_comment
description_forges_marker a entry i hs hi hd scheduled one_line filled forged = (
  join_lines (forged_lines a entry hs hi hd one_line),
  rw (scheduled, filled) refl,
  forged_stuck a entry hs hi hd one_line i forged,
)
