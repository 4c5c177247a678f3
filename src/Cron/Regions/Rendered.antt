-- ===== src/Cron/Regions/Rendered.antt =====
-- A rendered region as the reader sees it.
use task_control.Cron.Artefact.{DesiredArtefact}
use task_control.Cron.Markers.{Identity, begin_marker, end_marker, starts_with_hash}
use task_control.Cron.Markers.Reading.{
  match_begin-begin_marker, match_begin-end_marker, match_end-end_marker, match_begin_other,
  match_end_other,
}
use task_control.Cron.Regions.{read_line, begins, ends, plain}
use task_control.Cron.Regions.Pieces.{Piece, region, piece_lines, IsRead, IsPlain}
use task_control.Cron.Rendering.{crontab_entry, description_comment, render_crontab_region}
use task_control.Errors.{ok}
use task_control.Prelude.{
  String, ◌≡◌, refl, ap, sym, ◌∙◌, false, List, [], ◌∷◌, ◌++◌, map, All, All-append, ◌<>◌, <>-empty,
  is_blank, Bool-cases, inl, inr,
}
use mathlib.Core.List.{map-append, append_assoc}
use task_control.Text.Lines.{
  has_no_break, starts_with_newline, splitlines_keepends, join_lines, split, join_words,
}
use task_control.Text.Matching.{IsToken}
use task_control.Text.Splitting.{HasNoBreak, splitlines_keepends-join_lines, chop-line}
use task_control.Text.Words.{IsToken-HasNoBreak, append-HasNoBreak, collapsed-HasNoBreak}

-- An artefact that is rendered to what it says: its slug, identifier and digest have no white space,
-- its crontab entry is one line and no comment, and its description is no marker.
pub record IsDeployable (a : DesiredArtefact) (entry : String) : Type 0 where
  pub slug : IsToken a.slug
  pub task_id : IsToken a.task_id
  pub digest : IsToken a.content_digest
  pub scheduled : crontab_entry a ≡ ok entry
  pub one_line : HasNoBreak entry
  pub no_comment : starts_with_hash entry ≡ false
  pub no_marker : All (λ line. read_line line ≡ plain) (description_comment a.description)

abbrev pub artefact_identity : DesiredArtefact → Identity
artefact_identity a = record { slug = a.slug; task_id = a.task_id; digest = a.content_digest }

-- The description is at most one line, whatever line breaks it has.
pub description_comment-HasNoBreak : (d : String) → All HasNoBreak (description_comment d)
unfolding description_comment has_no_break
description_comment-HasNoBreak d = elim (Bool-cases (is_blank d)) [
  | inl e ↦ rw e tt
  | inr e ↦ rw e (append-HasNoBreak "# " (join_words (split d)) refl (collapsed-HasNoBreak d), tt)
]

pub begin_marker-HasNoBreak :
    (a : DesiredArtefact)
    → IsToken a.slug
    → IsToken a.task_id
    → IsToken a.content_digest
    → HasNoBreak (begin_marker a)
unfolding begin_marker has_no_break
begin_marker-HasNoBreak a hs hi hd =
    append-HasNoBreak a.slug (" id=" <> a.task_id <> " digest=" <> a.content_digest <> " >>>")
      (IsToken-HasNoBreak a.slug hs)
      (append-HasNoBreak a.task_id (" digest=" <> a.content_digest <> " >>>")
        (IsToken-HasNoBreak a.task_id hi)
        (append-HasNoBreak a.content_digest " >>>" (IsToken-HasNoBreak a.content_digest hd) refl))

pub end_marker-HasNoBreak : (slug : String) → IsToken slug → HasNoBreak (end_marker slug)
unfolding end_marker has_no_break
end_marker-HasNoBreak slug h = append-HasNoBreak slug " <<<" (IsToken-HasNoBreak slug h) refl

-- What the three kinds of lines are read as.
pub read_line-begin_marker :
    (a : DesiredArtefact)
    → IsToken a.slug
    → IsToken a.task_id
    → IsToken a.content_digest
    → read_line (begin_marker a) ≡ begins (artefact_identity a)
unfolding read_line begin_marker
read_line-begin_marker a hs hi hd =
    rw (match_begin-begin_marker a.slug a.task_id a.content_digest hs hi hd) refl

read_line-end_marker : (slug : String) → IsToken slug → read_line (end_marker slug) ≡ ends slug
unfolding read_line end_marker
read_line-end_marker slug h = rw (match_begin-end_marker slug, match_end-end_marker slug h) refl

read_line-other : (line : String) → starts_with_hash line ≡ false → read_line line ≡ plain
unfolding read_line
read_line-other line h = rw (match_begin_other line h, match_end_other line h) refl

abbrev pub with_newlines : List String → List String
with_newlines = map (λ line. line <> "\n")

-- the lines between the markers
abbrev pub body_lines : DesiredArtefact → String → List String
body_lines a entry = description_comment a.description ++ entry ∷ []

abbrev pub rendered_piece : DesiredArtefact → String → Piece
rendered_piece a entry =
    region (artefact_identity a) (begin_marker a <> "\n") (with_newlines (body_lines a entry))
      (end_marker a.slug <> "\n")

abbrev pub rendered_text : DesiredArtefact → String → String
rendered_text a entry = join_lines (begin_marker a ∷ body_lines a entry ++ end_marker a.slug ∷ [])

with_newlines-IsPlain :
    (lines : List String)
    → All HasNoBreak lines
    → All (λ line. read_line line ≡ plain) lines
    → All IsPlain (with_newlines lines)
with_newlines-IsPlain [] h p = tt
with_newlines-IsPlain (l ∷ ls) h p = (rw (chop-line l h.0) p.0, with_newlines-IsPlain ls h.1 p.1)

pub starts_with_newline-rendered_text :
    (a : DesiredArtefact) (entry t : String)
    → starts_with_newline (rendered_text a entry <> t) ≡ false
unfolding begin_marker join_lines starts_with_newline
starts_with_newline-rendered_text a entry t = refl

module _ (a : DesiredArtefact) (entry : String) (d : IsDeployable a entry) where
  pub render_crontab_region-ok : render_crontab_region a ≡ ok (rendered_text a entry)
  unfolding render_crontab_region
  render_crontab_region-ok = rw d.scheduled (
      ap (λ lines. ok (join_lines (begin_marker a ∷ lines)))
        (sym
          (append_assoc (description_comment a.description) (entry ∷ []) (end_marker a.slug ∷ []))))

  body_lines-HasNoBreak : All HasNoBreak (body_lines a entry)
  body_lines-HasNoBreak =
      All-append HasNoBreak (description_comment a.description) (entry ∷ [])
        (description_comment-HasNoBreak a.description) (d.one_line, tt)

  -- Split into lines, a rendered region is its piece, whatever follows it.
  pub splitlines_keepends-rendered_text :
      (t : String)
      → splitlines_keepends (rendered_text a entry <> t)
        ≡ piece_lines (rendered_piece a entry) ++ splitlines_keepends t
  splitlines_keepends-rendered_text t =
      splitlines_keepends-join_lines (begin_marker a ∷ body_lines a entry ++ end_marker a.slug ∷ [])
        t
        (
          begin_marker-HasNoBreak a d.slug d.task_id d.digest,
          All-append HasNoBreak (body_lines a entry) (end_marker a.slug ∷ []) body_lines-HasNoBreak
              (end_marker-HasNoBreak a.slug d.slug, tt),
        )
      ∙ ap (λ lines. lines ++ splitlines_keepends t)
          (map-append (λ line. line <> "\n") (begin_marker a ∷ body_lines a entry)
            (end_marker a.slug ∷ []))

  pub splitlines_keepends-rendered_text_alone :
      splitlines_keepends (rendered_text a entry) ≡ piece_lines (rendered_piece a entry) ++ []
  unfolding splitlines_keepends
  splitlines_keepends-rendered_text_alone =
      ap splitlines_keepends (sym (<>-empty (rendered_text a entry)))
      ∙ splitlines_keepends-rendered_text ""

  pub rendered_piece-IsRead : IsRead (rendered_piece a entry)
  rendered_piece-IsRead = (
    rw (chop-line (begin_marker a) (begin_marker-HasNoBreak a d.slug d.task_id d.digest))
        (read_line-begin_marker a d.slug d.task_id d.digest),
    with_newlines-IsPlain (body_lines a entry) body_lines-HasNoBreak (
        All-append (λ line. read_line line ≡ plain) (description_comment a.description) (entry ∷ [])
          d.no_marker (read_line-other entry d.no_comment, tt)),
    rw (chop-line (end_marker a.slug) (end_marker-HasNoBreak a.slug d.slug))
        (read_line-end_marker a.slug d.slug),
  )
