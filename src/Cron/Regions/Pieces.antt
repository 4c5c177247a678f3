-- ===== src/Cron/Regions/Pieces.antt =====
-- A crontab as a sequence of foreign lines and marked regions: what `find_managed_regions` reads, and
-- no more.
use task_control.Cron.Markers.{Identity}
use task_control.Cron.Regions.{
  ManagedRegion, begins, ends, plain, read_line, Opening, close, scan, with_region,
}
use task_control.Errors.{ok}
use task_control.Prelude.{
  ℕ, suc, ◌+◌, String, ◌≡◌, refl, ap, ◌∙◌, none, some, List, [], ◌∷◌, ◌++◌, map, length,
  length-append, All, arith, eq_refl,
}
use mathlib.Core.List.{append_assoc, append-nil}
use task_control.Text.Lines.{chop}

-- A foreign line, or a region with its begin marker, the lines between and its end marker; the lines
-- are with their breaks.
pub data Piece : Type 0 where
  foreign : String → Piece
  region : Identity → String → List String → String → Piece

abbrev pub piece_lines : Piece → List String
piece_lines (foreign line) = line ∷ []
piece_lines (region identity first body last) = first ∷ body ++ last ∷ []

abbrev pub lines_of : List Piece → List String
lines_of [] = []
lines_of (p ∷ ps) = piece_lines p ++ lines_of ps

pub lines_of-append : (ps qs : List Piece) → lines_of (ps ++ qs) ≡ lines_of ps ++ lines_of qs
lines_of-append [] qs = refl
lines_of-append (p ∷ ps) qs =
    rw (lines_of-append ps qs, append_assoc (piece_lines p) (lines_of ps) (lines_of qs)) refl

abbrev pub IsPlain : String → Type 0
IsPlain line = read_line (chop line) ≡ plain

-- A piece is what the patterns say.
abbrev pub IsRead : Piece → Type 0
IsRead (foreign line) = IsPlain line
IsRead (region identity first body last) =
    (read_line (chop first) ≡ begins identity)
    × All IsPlain body
    × (read_line (chop last) ≡ ends identity.slug)

abbrev pub region_at : ℕ → Identity → String → List String → String → ManagedRegion
region_at start identity first body last = record {
  slug = identity.slug;
  task_id = identity.task_id;
  digest = identity.digest;
  start = start;
  end = start + suc (length body);
  lines = chop first ∷ map chop body ++ chop last ∷ [];
}

-- the regions among the pieces, where the first piece starts at a line number
abbrev pub regions_of : ℕ → List Piece → List ManagedRegion
regions_of start [] = []
regions_of start (foreign line ∷ ps) = regions_of (suc start) ps
regions_of start (region identity first body last ∷ ps) =
    region_at start identity first body last ∷ regions_of (start + suc (suc (length body))) ps

-- One round of the loop, by what the line is.
module _ (line : String) (index : ℕ) (lines : List String) where
  pub scan-foreign :
      read_line line ≡ plain → scan index none (line ∷ lines) ≡ scan (suc index) none lines
  unfolding scan
  scan-foreign e = ground (arith, e)

  pub scan-begin :
      (identity : Identity)
      → read_line line ≡ begins identity
      → scan index none (line ∷ lines)
        ≡ scan
            (suc index)
            (some (record { identity = identity; open_at = index; lines = line ∷ [] }))
            lines
  unfolding scan
  scan-begin identity e = ground (arith, e)

  pub scan-between :
      (o : Opening)
      → read_line line ≡ plain
      → scan index (some o) (line ∷ lines)
        ≡ scan (suc index) (some (record o { lines = o.lines ++ line ∷ [] })) lines
  unfolding scan
  scan-between o e = ground (arith, e)

  pub scan-end :
      (o : Opening)
      → read_line line ≡ ends o.identity.slug
      → scan index (some o) (line ∷ lines)
        ≡ with_region (close o index line) (scan (suc index) none lines)
  unfolding scan
  scan-end o e = ground (arith, e, eq_refl o.identity.slug)

-- the region that an opening becomes, by the lines from a line number on
abbrev pub closed : Opening → ℕ → List String → String → ManagedRegion
closed o index body last = record {
  slug = o.identity.slug;
  task_id = o.identity.task_id;
  digest = o.identity.digest;
  start = o.open_at;
  end = index + length body;
  lines = o.lines ++ map chop body ++ chop last ∷ [];
}

-- the lines of a region, once its begin marker was read
scan-body :
    (index : ℕ) (o : Opening) (body : List String) (last : String) (rest : List String)
    → All IsPlain body
    → read_line (chop last) ≡ ends o.identity.slug
    → scan index (some o) (map chop (body ++ last ∷ rest))
      ≡ with_region
          (closed o index body last)
          (scan (index + suc (length body)) none (map chop rest))
unfolding close
scan-body index o [] last rest h e =
    let no_more : index + length {A = String} [] ≡ index = omega arith in
    let next : index + suc (length {A = String} []) ≡ suc index = omega arith in
    rw (no_more, next, append-nil) (scan-end (chop last) index (map chop rest) o e)
scan-body index o (line ∷ body) last rest h e =
    let o' : Opening = record o { lines = o.lines ++ chop line ∷ [] } in
    let longer : index + length (line ∷ body) ≡ suc index + length body = omega arith in
    let next : index + suc (length (line ∷ body)) ≡ suc index + suc (length body) = omega arith in
    rw (longer, next, ← append_assoc o.lines (chop line ∷ []) (map chop body))
      (scan-between (chop line) index (map chop (body ++ last ∷ rest)) o h.0
        ∙ scan-body (suc index) o' body last rest h.1 e)

-- The loop finds exactly the regions of a text made of such pieces.
pub scan-lines_of :
    (start : ℕ) (ps : List Piece)
    → All IsRead ps
    → scan start none (map chop (lines_of ps)) ≡ ok (regions_of start ps)
unfolding scan
scan-lines_of start [] h = refl
scan-lines_of start (foreign line ∷ ps) h =
    scan-foreign (chop line) start (map chop (lines_of ps)) h.0 ∙ scan-lines_of (suc start) ps h.1
scan-lines_of start (region identity first body last ∷ ps) h =
    let o : Opening = record { identity = identity; open_at = start; lines = chop first ∷ [] } in
    let ends_at : suc start + length body ≡ start + suc (length body) = omega arith in
    let next : suc start + suc (length body) ≡ start + suc (suc (length body)) = omega arith in
    let read = scan-body (suc start) o body last (lines_of ps) h.0.1 h.0.2 in
    rw (append_assoc body (last ∷ []) (lines_of ps)) (
      scan-begin (chop first) start (map chop (body ++ last ∷ lines_of ps)) identity h.0.0
      ∙ rw (ends_at, next, scan-lines_of (start + suc (suc (length body))) ps h.1) at read)

pub regions_of-append :
    (start : ℕ) (ps qs : List Piece)
    → regions_of start (ps ++ qs)
      ≡ regions_of start ps ++ regions_of (start + length (lines_of ps)) qs
regions_of-append start [] qs =
    let here : start + length (lines_of []) ≡ start = omega arith in rw here refl
regions_of-append start (foreign line ∷ ps) qs =
    let further : start + suc (length (lines_of ps)) ≡ suc start + length (lines_of ps) =
      omega arith in
    rw further (regions_of-append (suc start) ps qs)
regions_of-append start (region identity first body last ∷ ps) qs =
    let further : start + length (lines_of (region identity first body last ∷ ps))
        ≡ start + suc (suc (length body)) + length (lines_of ps) =
      omega (
        arith,
        length-append body (last ∷ []),
        length-append (first ∷ body ++ last ∷ []) (lines_of ps),
      ) in
    rw further (
      ap (λ rs. region_at start identity first body last ∷ rs)
        (regions_of-append (start + suc (suc (length body))) ps qs))
