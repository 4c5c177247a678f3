-- ===== src/Cron/Regions/Undeploying.antt =====
-- Deploying a new task and removing it again.
use task_control.Cron.Artefact.{DesiredArtefact}
use task_control.Cron.Markers.{begin_marker, end_marker}
use task_control.Cron.Regions.{
  ManagedRegion, find_managed_regions, region_of, replace_region, remove_region, remove_at,
}
use task_control.Cron.Regions.Deploying.{
  IsTextFile, found_again, added_pieces, lines_of-added_pieces, added_pieces-IsRead,
  identities-added_pieces, replace_region-absent,
}
use task_control.Cron.Regions.Exactly.{IsSequence, find_exact}
use task_control.Cron.Regions.Locating.{splice-concat}
use task_control.Cron.Regions.Pieces.{
  Piece, lines_of, lines_of-append, regions_of, regions_of-append, region_at, piece_lines,
}
use task_control.Cron.Regions.Registry.{
  registry, install, HasOwnTasks, identities, registry-regions_of,
}
use task_control.Cron.Regions.Rendered.{
  IsDeployable, artefact_identity, rendered_piece, rendered_text, body_lines, with_newlines,
  render_crontab_region-ok,
}
use task_control.Cron.Rendering.{render_crontab_region}
use task_control.Errors.{ok}
use task_control.Prelude.{
  ℕ, suc, ◌+◌, String, ◌≡◌, refl, ap, sym, ◌∙◌, none, some, List, [], ◌∷◌, ◌++◌, length,
  length-append, arith, eq_iff, concat, ◌<>◌, <>-empty,
}
use task_control.Text.Lines.{splitlines_keepends}
use task_control.Text.Splitting.{concat-splitlines_keepends}

-- The first region of a task behind regions of others.
region_of-last :
    (slug : String) (rs : List ManagedRegion) (r : ManagedRegion)
    → region_of slug rs ≡ none
    → r.slug ≡ slug
    → region_of slug (rs ++ r ∷ []) ≡ some r
unfolding region_of
region_of-last slug [] r h e = ground (arith, (eq_iff r.slug slug).1 e)
region_of-last slug (q ∷ rs) r h e = ground (arith, h, region_of-last slug rs r)

module _ (a : DesiredArtefact) (entry : String) (d : IsDeployable a entry) (content : String)
    (ps : List Piece) (s : IsSequence content ps)
    (own : HasOwnTasks (install (artefact_identity a) (identities ps))) (file : IsTextFile content)
    (absent : region_of a.slug (regions_of 0 ps) ≡ none) where
  remove_region-added : remove_region (content <> rendered_text a entry) a.slug ≡ ok content
  unfolding remove_region remove_at concat
  remove_region-added =
      let piece : Piece = rendered_piece a entry in
      let body = with_newlines (body_lines a entry) in
      let start : ℕ = 0 + length (lines_of ps) in
      let added =
        region_at start (artefact_identity a) (begin_marker a <> "\n") body
          (end_marker a.slug <> "\n") in
      let found =
        found_again (content <> rendered_text a entry) (added_pieces a entry d content ps s own)
          (lines_of-added_pieces a entry d content ps s own file)
          (added_pieces-IsRead a entry d content ps s own)
          (rw (identities-added_pieces a entry d content ps s own absent) own) in
      let there : region_of a.slug (regions_of 0 (ps ++ piece ∷ [])) ≡ some added =
        rw (regions_of-append 0 ps (piece ∷ []))
          (region_of-last a.slug (regions_of 0 ps) added absent refl) in
      let split : splitlines_keepends (content <> rendered_text a entry)
          ≡ lines_of ps ++ (piece_lines piece ++ []) =
        sym (lines_of-added_pieces a entry d content ps s own file)
        ∙ lines_of-append ps (piece ∷ []) in
      let starts : start ≡ length (lines_of ps) = omega arith in
      let ends : suc (start + suc (length body))
          ≡ length (lines_of ps) + length (piece_lines piece) =
        omega (arith, length-append body ((end_marker a.slug <> "\n") ∷ [])) in
      let kept : concat (lines_of ps) <> "" <> "" ≡ content =
        <>-empty (concat (lines_of ps)) ∙ ap concat s.whole ∙ concat-splitlines_keepends content in
      rw (found, there, split)
        (ap ok (
          splice-concat (lines_of ps) (piece_lines piece) [] [] start (start + suc (length body))
            starts ends
          ∙ kept))

-- Deploying a task that a crontab does not have and removing it again gives the same crontab, byte for
-- byte, where the crontab is accepted, is empty or ends with a newline, and the artefact can be
-- deployed and its task has no region under another slug.
pub deploy_then_remove :
    (a : DesiredArtefact) (entry content : String) (regions : List ManagedRegion)
    → IsDeployable a entry
    → IsTextFile content
    → find_managed_regions content ≡ ok regions
    → region_of a.slug regions ≡ none
    → HasOwnTasks (install (artefact_identity a) (registry regions))
    → (text : String) × (updated : String) × (render_crontab_region a ≡ ok text)
      × (replace_region content a.slug text ≡ ok updated)
      × (remove_region updated a.slug ≡ ok content)
deploy_then_remove a entry content regions d file found absent own =
    let (ps, s, same) = (find_exact content regions).0 found in
    let own' : HasOwnTasks (install (artefact_identity a) (identities ps)) =
      rw (← registry-regions_of 0 ps, same) own in
    let absent' : region_of a.slug (regions_of 0 ps) ≡ none = rw same absent in
    (
      rendered_text a entry,
      content <> rendered_text a entry,
      render_crontab_region-ok a entry d,
      replace_region-absent a entry d content ps s own' absent' file (found ∙ ap ok (sym same)),
      remove_region-added a entry d content ps s own' file absent',
    )
