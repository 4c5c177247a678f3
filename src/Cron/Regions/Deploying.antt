-- ===== src/Cron/Regions/Deploying.antt =====
-- Deploying a task into a crontab with a region for each task, by what the crontab promises; and
-- undoing it.
use task_control.Cron.Artefact.{DesiredArtefact}
use task_control.Cron.Regions.{
  ManagedRegion, find_managed_regions, region_of, append_to, separator, replace_region, replace_at,
}
use task_control.Cron.Regions.Exactly.{IsSequence, find_exact}
use task_control.Cron.Regions.Locating.{
  IsFirst, region_of-IsFirst, lines_before, lines_found, lines_after, lines_of-IsFirst,
  splice-IsFirst,
}
use task_control.Cron.Regions.Pieces.{
  Piece, region, lines_of, lines_of-append, regions_of, piece_lines, IsRead,
}
use task_control.Cron.Regions.Registry.{
  registry, install, HasOwnTasks, identities, registry-regions_of, identities-append,
  registry-AreDistinct, install-append, install_over,
}
use task_control.Cron.Regions.Rendered.{
  IsDeployable, starts_with_newline-rendered_text, artefact_identity, rendered_piece, rendered_text,
  splitlines_keepends-rendered_text, splitlines_keepends-rendered_text_alone, rendered_piece-IsRead,
  render_crontab_region-ok,
}
use task_control.Cron.Rendering.{render_crontab_region}
use task_control.Errors.{ok}
use task_control.Prelude.{
  String, ◌≡◌, refl, ap, sym, ◌∙◌, ◌⊎◌, inl, inr, true, none, some, List, [], ◌∷◌, ◌++◌, All,
  All-append, All-split, str_eq, eq_iff, concat, ◌<>◌, Option-cases, Bool-cases,
}
use mathlib.Core.List.{append_assoc, append-nil}
use mathlib.Core.Path.{subst}
use task_control.Text.Lines.{splitlines_keepends, ends_with_newline}
use task_control.Text.Splitting.{splitlines_keepends-append, concat-splitlines_keepends}
use task_control.Text.Stability.{splitlines_keepends-before, splitlines_keepends-behind}

-- A text is empty or ends with a newline.
abbrev pub IsTextFile : String → Type 0
IsTextFile content = (content ≡ "") ⊎ (ends_with_newline content ≡ true)

-- Behind such a text there is no separator.
append_to-IsTextFile :
    (content rendered : String)
    → IsTextFile content
    → append_to content rendered ≡ content <> rendered
unfolding append_to separator
append_to-IsTextFile content rendered (inl e) = rw e refl
append_to-IsTextFile content rendered (inr e) = elim (Bool-cases (str_eq content "")) [
  | inl blank ↦ rw ((eq_iff content "").0 blank) refl
  | inr full ↦ rw (full, e) refl
]

splitlines_keepends-IsTextFile :
    (content t : String)
    → IsTextFile content
    → splitlines_keepends (content <> t) ≡ splitlines_keepends content ++ splitlines_keepends t
unfolding splitlines_keepends
splitlines_keepends-IsTextFile content t (inl e) = rw e refl
splitlines_keepends-IsTextFile content t (inr e) = splitlines_keepends-append t content e

-- A text whose pieces are of different tasks is read as these.
pub found_again :
    (updated : String) (ps : List Piece)
    → lines_of ps ≡ splitlines_keepends updated
    → All IsRead ps
    → HasOwnTasks (identities ps)
    → find_managed_regions updated ≡ ok (regions_of 0 ps)
found_again updated ps whole read own = (find_exact updated (regions_of 0 ps)).1 (
  ps,
  record {
    whole = whole;
    read = read;
    distinct = registry-AreDistinct (regions_of 0 ps) (rw (registry-regions_of 0 ps) own);
  },
  refl,
)

-- An artefact was rendered and written, and the crontab that results is read as promised.
pub record IsDeployed (a : DesiredArtefact) (content : String) (regions : List ManagedRegion)
    : Type 0 where
  pub text : String
  pub updated : String
  pub after : List ManagedRegion
  pub rendered : render_crontab_region a ≡ ok text
  pub replaced : replace_region content a.slug text ≡ ok updated
  pub found : find_managed_regions updated ≡ ok after
  pub promised : registry after ≡ install (artefact_identity a) (registry regions)

module _ (a : DesiredArtefact) (entry : String) (d : IsDeployable a entry) (content : String)
    (ps : List Piece) (s : IsSequence content ps)
    (own : HasOwnTasks (install (artefact_identity a) (identities ps))) where
  -- what remains to show, once the pieces of the new text are known
  pieces-IsDeployed :
      (updated : String) (qs : List Piece)
      → replace_region content a.slug (rendered_text a entry) ≡ ok updated
      → lines_of qs ≡ splitlines_keepends updated
      → All IsRead qs
      → identities qs ≡ install (artefact_identity a) (identities ps)
      → IsDeployed a content (regions_of 0 ps)
  pieces-IsDeployed updated qs replaced whole read same = record {
    text = rendered_text a entry;
    updated = updated;
    after = regions_of 0 qs;
    rendered = render_crontab_region-ok a entry d;
    replaced = replaced;
    found = found_again updated qs whole read (rw same own);
    promised = rw (registry-regions_of 0 qs, registry-regions_of 0 ps) same;
  }

  abbrev pub added_pieces : List Piece
  added_pieces = ps ++ rendered_piece a entry ∷ []

  -- the region at the end of the text
  pub lines_of-added_pieces :
      IsTextFile content
      → lines_of added_pieces ≡ splitlines_keepends (content <> rendered_text a entry)
  lines_of-added_pieces file =
      lines_of-append ps (rendered_piece a entry ∷ [])
      ∙ rw (s.whole, ← splitlines_keepends-rendered_text_alone a entry d)
          (sym (splitlines_keepends-IsTextFile content (rendered_text a entry) file))

  pub added_pieces-IsRead : All IsRead added_pieces
  added_pieces-IsRead =
      All-append IsRead ps (rendered_piece a entry ∷ []) s.read
        (rendered_piece-IsRead a entry d, tt)

  module _ (absent : region_of a.slug (regions_of 0 ps) ≡ none) where
    pub identities-added_pieces :
        identities added_pieces ≡ install (artefact_identity a) (identities ps)
    unfolding install
    identities-added_pieces =
        identities-append ps (rendered_piece a entry ∷ [])
        ∙ sym (rw append-nil at (install-append (artefact_identity a) 0 ps [] absent))

    pub replace_region-absent :
        IsTextFile content
        → find_managed_regions content ≡ ok (regions_of 0 ps)
        → replace_region content a.slug (rendered_text a entry)
          ≡ ok (content <> rendered_text a entry)
    unfolding replace_region replace_at
    replace_region-absent file found =
        rw (found, absent) (ap ok (append_to-IsTextFile content (rendered_text a entry) file))

    added-IsDeployed :
        IsTextFile content
        → find_managed_regions content ≡ ok (regions_of 0 ps)
        → IsDeployed a content (regions_of 0 ps)
    added-IsDeployed file found =
        pieces-IsDeployed (content <> rendered_text a entry) added_pieces
          (replace_region-absent file found) (lines_of-added_pieces file) added_pieces-IsRead
          identities-added_pieces

  -- the identity that is installed in the place of the task's old one
  installed_over :
      {r : ManagedRegion} (f : IsFirst a.slug 0 ps r)
      → install (artefact_identity a) (identities ps)
        ≡ identities f.before ++ artefact_identity a ∷ identities f.after
  installed_over f =
      ap (λ qs. install (artefact_identity a) (identities qs)) f.whole
      ∙ ap (install (artefact_identity a))
          (identities-append f.before (region f.identity f.first f.body f.last ∷ f.after))
      ∙ install-append (artefact_identity a) 0 f.before (f.identity ∷ identities f.after)
          f.not_before
      ∙ ap (λ is. identities f.before ++ is)
          (install_over (artefact_identity a) f.identity (identities f.after) f.same_slug)

  over-IsDeployed :
      {r : ManagedRegion}
      → region_of a.slug (regions_of 0 ps) ≡ some r
      → find_managed_regions content ≡ ok (regions_of 0 ps)
      → IsDeployed a content (regions_of 0 ps)
  unfolding replace_region replace_at
  over-IsDeployed {r} there found =
      let f = region_of-IsFirst a.slug 0 ps there in
      let text = rendered_text a entry in
      let before = lines_before a.slug ps f in
      let found_lines = lines_found a.slug ps f in
      let after = lines_after a.slug ps f in
      let piece : Piece = rendered_piece a entry in
      let lines = sym s.whole ∙ lines_of-IsFirst a.slug ps f in
      let behind =
        splitlines_keepends-behind (before ++ found_lines) after content
          (lines ∙ sym (append_assoc before found_lines after)) in
      let split : splitlines_keepends (concat before <> text <> concat after)
          ≡ before ++ (piece_lines piece ++ after) =
        splitlines_keepends-before before f.first ((f.body ++ f.last ∷ []) ++ after) content
          (text <> concat after) (starts_with_newline-rendered_text a entry (concat after)) lines
        ∙ ap (λ ls. before ++ ls)
            (splitlines_keepends-rendered_text a entry d (concat after)
              ∙ ap (λ ls. piece_lines piece ++ ls) behind) in
      let read = All-split IsRead f.before _ (subst (All IsRead) f.whole s.read) in
      pieces-IsDeployed (concat before <> text <> concat after) (f.before ++ piece ∷ f.after)
        (rw (found, there, ← s.whole, splice-IsFirst a.slug ps f (splitlines_keepends text))
          (ap (λ (t : String). ok (concat before <> t <> concat after))
            (concat-splitlines_keepends text)))
        (lines_of-append f.before (piece ∷ f.after) ∙ sym split)
        (All-append IsRead f.before _ read.0 (rendered_piece-IsRead a entry d, read.1.1))
        (identities-append f.before (piece ∷ f.after) ∙ sym (installed_over f))

-- A deployment refines the installation of an identity: where a crontab is accepted and is empty or
-- ends with a newline, an artefact that can be deployed is rendered, written into it and read
-- back, and the tasks of the crontab are then those before, with the artefact's identity in the
-- place of its task's first one, or at the end; provided that these are of different tasks.
pub deploy-IsDeployed :
    (a : DesiredArtefact) (entry content : String) (regions : List ManagedRegion)
    → IsDeployable a entry
    → IsTextFile content
    → find_managed_regions content ≡ ok regions
    → HasOwnTasks (install (artefact_identity a) (registry regions))
    → IsDeployed a content regions
deploy-IsDeployed a entry content regions d file found own =
    let (ps, s, same) = (find_exact content regions).0 found in
    let own' : HasOwnTasks (install (artefact_identity a) (identities ps)) =
      rw (← registry-regions_of 0 ps, same) own in
    let found' : find_managed_regions content ≡ ok (regions_of 0 ps) = found ∙ ap ok (sym same) in
    subst (IsDeployed a content) same (elim (Option-cases (region_of a.slug (regions_of 0 ps))) [
      | inl absent ↦ added-IsDeployed a entry d content ps s own' absent file found'
      | inr (r, there) ↦ over-IsDeployed a entry d content ps s own' there found'
    ])
