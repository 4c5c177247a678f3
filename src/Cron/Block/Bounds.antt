-- ===== src/Cron/Block/Bounds.antt =====
-- Where `_block_bounds` finds the block.
use task_control.Cron.Block.{
  BlockReading, block_begins, block_ends, other, read_block_line, Bounds, scan_bounds, block_bounds,
}
use task_control.Errors.{ok}
use task_control.Prelude.{
  ℕ, suc, ◌+◌, String, ◌≡◌, ◌≢◌, refl, ap, sym, ◌∙◌, ◌⊎◌, inl, inr, Option, none, some, List, [],
  ◌∷◌, ◌++◌, length, All, arith,
}
use mathlib.Core.List.{append_assoc}
use mathlib.Core.Path.{subst}
use task_control.Text.Lines.{splitlines}

abbrev pub IsOther : String → Type 0
IsOther line = read_block_line line ≡ other

abbrev pub IsNoBegin : String → Type 0
IsNoBegin line = read_block_line line ≢ block_begins

BlockReading-cases : (r : BlockReading) → (r ≡ block_begins) ⊎ (r ≡ block_ends) ⊎ (r ≡ other)
BlockReading-cases block_begins = inl refl
BlockReading-cases block_ends = inr (inl refl)
BlockReading-cases other = inr (inr refl)

-- Where the block was opened, what the rest of the lines says of its end: it has no end marker, or
-- its last end marker is the end.
data Ending (index : ℕ) (end : Option ℕ) (lines : List String) (found : ℕ) : Type 0 where
  earlier : end ≡ some found → All IsOther lines → Ending index end lines found
  later :
      (between : List String) (last : String) (after : List String)
      → lines ≡ between ++ last ∷ after
      → All IsNoBegin between
      → read_block_line last ≡ block_ends
      → All IsOther after
      → found ≡ index + length between
      → Ending index end lines found

Ending-other :
    (line : String) (index : ℕ) (end : Option ℕ) (lines : List String) {found : ℕ}
    → IsOther line
    → Ending (suc index) end lines found
    → Ending index end (line ∷ lines) found
Ending-other line index end lines e (earlier same rest) = earlier same (e, rest)
Ending-other line index end lines e (later between last after whole free ends rest place) =
    later (line ∷ between) last after (ap (λ ls. line ∷ ls) whole)
      ((λ begins. cc (e, begins)), free) ends rest (omega (arith, place))

Ending-end :
    (line : String) (index : ℕ) (end : Option ℕ) (lines : List String) {found : ℕ}
    → read_block_line line ≡ block_ends
    → Ending (suc index) (some index) lines found
    → Ending index end (line ∷ lines) found
Ending-end line index end lines e (earlier same rest) =
    later [] line lines refl tt e rest (ground (arith, same))
Ending-end line index end lines e (later between last after whole free ends rest place) =
    later (line ∷ between) last after (ap (λ ls. line ∷ ls) whole)
      ((λ begins. cc (e, begins)), free) ends rest (omega (arith, place))

-- One round of the loop, by what the line is.
module _ (line : String) (index : ℕ) (lines : List String) where
  pub scan_bounds-other :
      (start end : Option ℕ)
      → IsOther line
      → scan_bounds index start end (line ∷ lines) ≡ scan_bounds (suc index) start end lines
  unfolding scan_bounds
  scan_bounds-other start end e = ground (arith, e)

  pub scan_bounds-begin :
      (end : Option ℕ)
      → read_block_line line ≡ block_begins
      → scan_bounds index none end (line ∷ lines) ≡ scan_bounds (suc index) (some index) end lines
  unfolding scan_bounds
  scan_bounds-begin end e = ground (arith, e)

  pub scan_bounds-end :
      (start : ℕ) (end : Option ℕ)
      → read_block_line line ≡ block_ends
      → scan_bounds index (some start) end (line ∷ lines)
        ≡ scan_bounds (suc index) (some start) (some index) lines
  unfolding scan_bounds
  scan_bounds-end start end e = ground (arith, e)

  second_begin :
      (start : ℕ) (end : Option ℕ) (b : Bounds)
      → read_block_line line ≡ block_begins
      → scan_bounds index (some start) end (line ∷ lines) ≢ ok b
  unfolding scan_bounds
  second_begin start end b e h = ground (arith, e)

  stray_end :
      (end : Option ℕ) (b : Bounds)
      → read_block_line line ≡ block_ends
      → scan_bounds index none end (line ∷ lines) ≢ ok b
  unfolding scan_bounds
  stray_end end b e h = ground (arith, e)

scan_bounds-Ending :
    (index start : ℕ) (end : Option ℕ) (lines : List String) (b : Bounds)
    → scan_bounds index (some start) end lines ≡ ok b
    → (found : ℕ) × (b ≡ some (start, found)) × Ending index end lines found
unfolding scan_bounds
scan_bounds-Ending index start none [] b h = cc
scan_bounds-Ending index start (some e) [] b h = (e, ground (arith, h), earlier refl tt)
scan_bounds-Ending index start end (line ∷ lines) b h =
    elim (BlockReading-cases (read_block_line line)) [
      | inl e ↦ absurd (second_begin line index lines start end b e h)
      | inr (inl e) ↦
          let (found, same, rest) =
            scan_bounds-Ending (suc index) start (some index) lines b
              (sym (scan_bounds-end line index lines start end e) ∙ h) in
          (found, same, Ending-end line index end lines e rest)
      | inr (inr e) ↦
          let (found, same, rest) =
            scan_bounds-Ending (suc index) start end lines b
              (sym (scan_bounds-other line index lines (some start) end e) ∙ h) in
          (found, same, Ending-other line index end lines e rest)
    ]

-- A block among lines: from its only begin marker to the last end marker.
pub record IsBlock (index : ℕ) (lines : List String) (start end : ℕ) : Type 0 where
  pub before : List String
  pub first : String
  pub between : List String
  pub last : String
  pub after : List String
  pub whole : lines ≡ before ++ ((first ∷ between ++ last ∷ []) ++ after)
  pub none_before : All IsOther before
  pub opens : read_block_line first ≡ block_begins
  pub none_between : All IsNoBegin between
  pub closes : read_block_line last ≡ block_ends
  pub none_after : All IsOther after
  pub start_place : start ≡ index + length before
  pub end_place : end ≡ start + suc (length between)

-- What an accepted text has: no block marker, or a block.
abbrev pub IsBounded : ℕ → List String → Bounds → Type 0
IsBounded index lines none = All IsOther lines
IsBounded index lines (some (start, end)) = IsBlock index lines start end

begun :
    (line : String) (index : ℕ) (lines : List String) (found : ℕ)
    → read_block_line line ≡ block_begins
    → Ending (suc index) none lines found
    → IsBlock index (line ∷ lines) index found
begun line index lines found e (earlier same rest) = cc
begun line index lines found e (later between last after whole free ends rest place) = record {
  before = [];
  first = line;
  between = between;
  last = last;
  after = after;
  whole = ap (λ ls. line ∷ ls) (whole ∙ sym (append_assoc between (last ∷ []) after));
  none_before = tt;
  opens = e;
  none_between = free;
  closes = ends;
  none_after = rest;
  start_place = omega arith;
  end_place = omega (arith, place);
}

IsBounded-other :
    (line : String) (index : ℕ) (lines : List String) (b : Bounds)
    → IsOther line
    → IsBounded (suc index) lines b
    → IsBounded index (line ∷ lines) b
IsBounded-other line index lines none e h = (e, h)
IsBounded-other line index lines (some (start, end)) e h = record {
  before = line ∷ h.before;
  first = h.first;
  between = h.between;
  last = h.last;
  after = h.after;
  whole = ap (λ ls. line ∷ ls) h.whole;
  none_before = (e, h.none_before);
  opens = h.opens;
  none_between = h.none_between;
  closes = h.closes;
  none_after = h.none_after;
  start_place = omega (arith, h.start_place);
  end_place = h.end_place;
}

scan_bounds-IsBounded :
    (index : ℕ) (lines : List String) (b : Bounds)
    → scan_bounds index none none lines ≡ ok b
    → IsBounded index lines b
unfolding scan_bounds
scan_bounds-IsBounded index [] none h = tt
scan_bounds-IsBounded index [] (some (start, end)) h = cc
scan_bounds-IsBounded index (line ∷ lines) b h = elim (BlockReading-cases (read_block_line line)) [
  | inl e ↦
      let (found, same, ending) =
        scan_bounds-Ending (suc index) index none lines b
          (sym (scan_bounds-begin line index lines none e) ∙ h) in
      subst (IsBounded index (line ∷ lines)) (sym same) (begun line index lines found e ending)
  | inr (inl e) ↦ absurd (stray_end line index lines none b e h)
  | inr (inr e) ↦ IsBounded-other line index lines b e (
      scan_bounds-IsBounded (suc index) lines b
        (sym (scan_bounds-other line index lines none none e) ∙ h))
]

-- What `_block_bounds` accepts has no block marker or is a block with no markers around it.
pub block_bounds-IsBounded :
    (content : String) (b : Bounds)
    → block_bounds content ≡ ok b
    → IsBounded 0 (splitlines content) b
unfolding block_bounds
block_bounds-IsBounded content b h = scan_bounds-IsBounded 0 (splitlines content) b h
