-- ===== src/Cron/Regions/Locating.antt =====
-- Where the region that `next` finds stands among the pieces of a crontab.
use task_control.Cron.Markers.{Identity}
use task_control.Cron.Regions.{ManagedRegion, region_of, splice}
use task_control.Cron.Regions.Pieces.{
  Piece, foreign, region, lines_of, lines_of-append, regions_of, region_at,
}
use task_control.Prelude.{
  ℕ, suc, ◌+◌, String, ◌≡◌, refl, ap, sym, ◌∙◌, inl, inr, none, some, List, [], ◌∷◌, ◌++◌, map,
  length, length-append, arith, str_eq, eq_iff, drop, take-length, drop-length, concat, ◌<>◌,
  Bool-cases,
}
use mathlib.Core.List.{append_assoc, map-append}
use task_control.Text.Lines.{chop}
use task_control.Text.Splitting.{concat-append}

-- A splice by line numbers, in terms of the three parts of the lines.
pub splice-concat :
    (before old after middle : List String) (start end : ℕ)
    → start ≡ length before
    → suc end ≡ length before + length old
    → splice start end middle (before ++ (old ++ after))
      ≡ concat before <> concat middle <> concat after
unfolding splice
splice-concat before old after middle start end hs he =
    let ends : suc end ≡ length (before ++ old) = omega (arith, he, length-append before old) in
    let behind : drop (suc end) (before ++ (old ++ after)) ≡ after =
      rw (ends, ← append_assoc before old after) (drop-length (before ++ old) after) in
    rw (hs, take-length before (old ++ after), behind, concat-append, concat-append) refl

-- Where a task's first region stands among the pieces.
pub record IsFirst (slug : String) (start : ℕ) (ps : List Piece) (r : ManagedRegion) : Type 0 where
  pub before : List Piece
  pub identity : Identity
  pub first : String
  pub body : List String
  pub last : String
  pub after : List Piece
  pub whole : ps ≡ before ++ region identity first body last ∷ after
  pub place : r ≡ region_at (start + length (lines_of before)) identity first body last
  pub same_slug : identity.slug ≡ slug
  pub not_before : region_of slug (regions_of start before) ≡ none

pub region_of-IsFirst :
    (slug : String) (start : ℕ) (ps : List Piece) {r : ManagedRegion}
    → region_of slug (regions_of start ps) ≡ some r
    → IsFirst slug start ps r
unfolding region_of
region_of-IsFirst slug start [] h = cc
region_of-IsFirst slug start (foreign line ∷ ps) h =
    let f = region_of-IsFirst slug (suc start) ps h in
    let further : suc start + length (lines_of f.before)
        ≡ start + suc (length (lines_of f.before)) =
      omega arith in
    record {
      before = foreign line ∷ f.before;
      identity = f.identity;
      first = f.first;
      body = f.body;
      last = f.last;
      after = f.after;
      whole = ap (λ t. foreign line ∷ t) f.whole;
      place = rw further at f.place;
      same_slug = f.same_slug;
      not_before = f.not_before;
    }
region_of-IsFirst slug start (region identity first body last ∷ ps) {r} h =
    elim (Bool-cases (str_eq identity.slug slug)) [
      | inl e ↦
          let here : start + length (lines_of []) ≡ start = omega arith in
          record {
            before = [];
            identity = identity;
            first = first;
            body = body;
            last = last;
            after = ps;
            whole = refl;
            place = rw here (ground (arith, e, h));
            same_slug = (eq_iff identity.slug slug).0 e;
            not_before = refl;
          }
      | inr e ↦
          let f =
            region_of-IsFirst slug (start + suc (suc (length body))) ps {r = r}
              (ground (arith, e, h)) in
          let further : start + suc (suc (length body)) + length (lines_of f.before)
              ≡ start + length (lines_of (region identity first body last ∷ f.before)) =
            omega (
              arith,
              length-append body (last ∷ []),
              length-append (first ∷ body ++ last ∷ []) (lines_of f.before),
            ) in
          record {
            before = region identity first body last ∷ f.before;
            identity = f.identity;
            first = f.first;
            body = f.body;
            last = f.last;
            after = f.after;
            whole = ap (λ t. region identity first body last ∷ t) f.whole;
            place = rw further at f.place;
            same_slug = f.same_slug;
            not_before = rw e f.not_before;
          }
    ]

module _ (slug : String) (ps : List Piece) {r : ManagedRegion} (f : IsFirst slug 0 ps r) where
  abbrev pub lines_before : List String
  lines_before = lines_of f.before

  abbrev pub lines_found : List String
  lines_found = f.first ∷ f.body ++ f.last ∷ []

  abbrev pub lines_after : List String
  lines_after = lines_of f.after

  pub lines_of-IsFirst : lines_of ps ≡ lines_before ++ (lines_found ++ lines_after)
  lines_of-IsFirst =
      ap lines_of f.whole
      ∙ lines_of-append f.before (region f.identity f.first f.body f.last ∷ f.after)

  pub start-IsFirst : r.start ≡ length lines_before
  start-IsFirst = omega (arith, ap (λ (t : ManagedRegion). t.start) f.place)

  pub end-IsFirst : suc r.end ≡ length lines_before + length lines_found
  end-IsFirst = omega (
    arith,
    ap (λ (t : ManagedRegion). t.end) f.place,
    length-append (f.first ∷ f.body) (f.last ∷ []),
  )

  pub extent-IsFirst : map chop lines_found ≡ r.lines
  extent-IsFirst =
      map-append chop (f.first ∷ f.body) (f.last ∷ [])
      ∙ sym (ap (λ (t : ManagedRegion). t.lines) f.place)

  -- The splice at the region's line numbers keeps what stands before and behind it.
  pub splice-IsFirst :
      (middle : List String)
      → splice r.start r.end middle (lines_of ps)
        ≡ concat lines_before <> concat middle <> concat lines_after
  splice-IsFirst middle = rw lines_of-IsFirst (
      splice-concat lines_before lines_found lines_after middle r.start r.end start-IsFirst
        end-IsFirst)
