-- ===== src/Text/Splitting.antt =====
-- Splitting a text into lines keeps every character, and is undone by joining.
use Prim.Native.Char.{code, Char}
use task_control.Prelude.{
  String, ◌≡◌, inl, inr, refl, sym, ap, ◌∙◌, true, not, ◌&&◌, List, [], ◌∷◌, ◌++◌, map, ◌==◌,
  Bool-cases, concat, arith, All, ◌<>◌, <>_assoc, <>-empty,
}
use mathlib.Core.List.{append-nil}
use task_control.Text.Lines.{
  is_line_break, starts_with_newline, lengthen, splitlines_keepends, chop, splitlines, join_lines,
  ends_with_newline, has_no_break,
}

pub concat-append : (xs ys : List String) → concat (xs ++ ys) ≡ concat xs <> concat ys
unfolding concat
concat-append [] ys = refl
concat-append (x ∷ xs) ys = rw (concat-append xs ys, <>_assoc)

concat-lengthen : (c : String) (ls : List String) → concat (lengthen c ls) ≡ c <> concat ls
unfolding concat lengthen
concat-lengthen c [] = refl
concat-lengthen c (l ∷ ls) = <>_assoc c l (concat ls)

-- The lines with their breaks make up the text.
pub concat-splitlines_keepends : (s : String) → concat (splitlines_keepends s) ≡ s
unfolding splitlines_keepends concat
concat-splitlines_keepends String.[] = refl
concat-splitlines_keepends (String.◌∷◌ c s) =
    elim (Bool-cases (is_line_break (code c) && not (code c == 13 && starts_with_newline s))) [
      | inl ends ↦ rw (ends, concat-splitlines_keepends s)
      | inr goes_on ↦ rw (goes_on, concat-lengthen, concat-splitlines_keepends s)
    ]

-- A text that is not empty has a first line.
first_line :
    (c : Char) (s : String)
    → (l : String) × (ls : List String) × (splitlines_keepends (String.◌∷◌ c s) ≡ l ∷ ls)
unfolding splitlines_keepends lengthen
first_line c s =
    elim (Bool-cases (is_line_break (code c) && not (code c == 13 && starts_with_newline s))) [
      | inl ends ↦ (String.◌∷◌ c String.[], splitlines_keepends s, rw ends)
      | inr goes_on ↦ rw goes_on (lengthened (splitlines_keepends s))
    ]
  where
    lengthened :
        (rest : List String)
        → (l : String) × (ls : List String) × (lengthen (String.◌∷◌ c String.[]) rest ≡ l ∷ ls)
    lengthened [] = (_, _, refl)
    lengthened (l ∷ ls) = (_, _, refl)

module _ (t : String) where
  -- Behind a newline the splitting starts anew.
  pub splitlines_keepends-append :
      (s : String)
      → ends_with_newline s ≡ true
      → splitlines_keepends (s <> t) ≡ splitlines_keepends s ++ splitlines_keepends t
  unfolding splitlines_keepends ends_with_newline lengthen
  splitlines_keepends-append String.[] h = cc
  splitlines_keepends-append (String.◌∷◌ c String.[]) h = ground arith
  splitlines_keepends-append (String.◌∷◌ c (String.◌∷◌ d s)) h =
      let (l, ls, split) = first_line d s in
      ground (arith, splitlines_keepends-append (String.◌∷◌ d s) h, split)

  -- A line without breaks in front of a newline is the first line.
  pub splitlines_keepends-line :
      (l : String)
      → has_no_break l ≡ true
      → splitlines_keepends (l <> "\n" <> t) ≡ (l <> "\n") ∷ splitlines_keepends t
  unfolding splitlines_keepends has_no_break lengthen
  splitlines_keepends-line String.[] h = refl
  splitlines_keepends-line (String.◌∷◌ c l) h = ground (arith, splitlines_keepends-line l)

pub chop-line : (l : String) → has_no_break l ≡ true → chop (l <> "\n") ≡ l
unfolding chop has_no_break
chop-line String.[] h = refl
chop-line (String.◌∷◌ c l) h = ground (arith, chop-line l)

abbrev pub HasNoBreak : String → Type 0
HasNoBreak l = has_no_break l ≡ true

-- Joined lines are split into the same lines, whatever follows them.
pub splitlines_keepends-join_lines :
    (ls : List String) (t : String)
    → All HasNoBreak ls
    → splitlines_keepends (join_lines ls <> t) ≡ map (λ l. l <> "\n") ls ++ splitlines_keepends t
unfolding join_lines
splitlines_keepends-join_lines [] t h = refl
splitlines_keepends-join_lines (l ∷ ls) t h = rw (<>_assoc l ("\n" <> join_lines ls) t) (
    splitlines_keepends-line (join_lines ls <> t) l h.0
    ∙ ap (λ rest. (l <> "\n") ∷ rest) (splitlines_keepends-join_lines ls t h.1))

pub map-chop : (ls : List String) → All HasNoBreak ls → map chop (map (λ l. l <> "\n") ls) ≡ ls
map-chop [] h = refl
map-chop (l ∷ ls) h = ground (arith, chop-line l, map-chop ls)

-- Joined lines are split into the same lines.
pub splitlines_keepends-joined :
    (ls : List String)
    → All HasNoBreak ls
    → splitlines_keepends (join_lines ls) ≡ map (λ l. l <> "\n") ls
unfolding splitlines_keepends
splitlines_keepends-joined ls h =
    ap splitlines_keepends (sym (<>-empty (join_lines ls)))
    ∙ splitlines_keepends-join_lines ls "" h
    ∙ append-nil (map (λ l. l <> "\n") ls)

pub splitlines-join_lines : (ls : List String) → All HasNoBreak ls → splitlines (join_lines ls) ≡ ls
unfolding splitlines
splitlines-join_lines ls h = ap (map chop) (splitlines_keepends-joined ls h) ∙ map-chop ls h
