-- ===== src/Text/Stability.antt =====
-- The lines of a text stay its lines when other text takes the place of what follows them.
use Prim.Native.Char.{code, Char}
use task_control.Prelude.{
  String, ◌≡◌, refl, sym, ap, ◌∙◌, ◌≢◌, inl, inr, Bool, true, false, not, ◌&&◌, ◌||◌, ◌⊎◌, List, [],
  ◌∷◌, ◌++◌, ◌==◌, Bool-cases, concat, arith, ◌<>◌, <>_assoc,
}
use task_control.Text.Lines.{is_line_break, starts_with_newline, lengthen, splitlines_keepends}
use task_control.Text.Splitting.{concat-splitlines_keepends}

-- The test at the end of a line.
abbrev ends_line : Char → String → Bool
ends_line c s = is_line_break (code c) && not (code c == 13 && starts_with_newline s)

splitlines_keepends-ends :
    (c : Char) (s : String)
    → ends_line c s ≡ true
    → splitlines_keepends (String.◌∷◌ c s) ≡ String.◌∷◌ c String.[] ∷ splitlines_keepends s
unfolding splitlines_keepends
splitlines_keepends-ends c s e = rw e

splitlines_keepends-goes_on :
    (c : Char) (s : String)
    → ends_line c s ≡ false
    → splitlines_keepends (String.◌∷◌ c s)
      ≡ lengthen (String.◌∷◌ c String.[]) (splitlines_keepends s)
unfolding splitlines_keepends
splitlines_keepends-goes_on c s e = rw e

-- What `lengthen` makes a first line of.
lengthen-first :
    (c : Char) (rest : List String) {l : String} {ls : List String}
    → lengthen (String.◌∷◌ c String.[]) rest ≡ l ∷ ls
    → (tail : String) × (l ≡ String.◌∷◌ c tail)
unfolding lengthen
lengthen-first c [] h = (String.[], ground (arith, h))
lengthen-first c (r ∷ rs) h = (r, ground (arith, h))

-- A first line starts as its text does.
first_char :
    (c : Char) (s : String) {l : String} {ls : List String}
    → splitlines_keepends (String.◌∷◌ c s) ≡ l ∷ ls
    → (tail : String) × (l ≡ String.◌∷◌ c tail)
first_char c s h = elim (Bool-cases (ends_line c s)) [
  | inl e ↦ (String.[], ground (arith, splitlines_keepends-ends c s e, h))
  | inr e ↦ lengthen-first c (splitlines_keepends s) (sym (splitlines_keepends-goes_on c s e) ∙ h)
]

starts_with_newline-first :
    (s t : String) {l : String} {ls : List String}
    → splitlines_keepends s ≡ l ∷ ls
    → starts_with_newline (l <> t) ≡ starts_with_newline s
unfolding starts_with_newline splitlines_keepends
starts_with_newline-first String.[] t h = cc
starts_with_newline-first (String.◌∷◌ c s) t h = let (tail, e) = first_char c s h in rw e refl

-- A longer first line with lines behind it.
lengthen_more :
    (c : Char) (rest : List String) {l m : String} {ls : List String}
    → lengthen (String.◌∷◌ c String.[]) rest ≡ l ∷ m ∷ ls
    → (tail : String) × (rest ≡ tail ∷ m ∷ ls) × (l ≡ String.◌∷◌ c tail)
unfolding lengthen
lengthen_more c [] h = cc
lengthen_more c (r ∷ rs) h = (r, ground (arith, h), ground (arith, h))

no_line : {l : String} {ls : List String} → splitlines_keepends "" ≢ l ∷ ls
unfolding splitlines_keepends
no_line h = cc

-- The lines that `lengthen` leaves behind the first.
lengthen_behind :
    (c : Char) (rest : List String) {l : String} {ls : List String}
    → lengthen (String.◌∷◌ c String.[]) rest ≡ l ∷ ls
    → (ls ≡ []) ⊎ ((r : String) × (rest ≡ r ∷ ls))
unfolding lengthen
lengthen_behind c [] h = inl (ground (arith, h))
lengthen_behind c (r ∷ rs) h = inr (r, ground (arith, h))

-- The lines behind the first are the lines of the rest.
pub splitlines_keepends-rest :
    (s : String) {l : String} {ls : List String}
    → splitlines_keepends s ≡ l ∷ ls
    → splitlines_keepends (concat ls) ≡ ls
unfolding concat splitlines_keepends
splitlines_keepends-rest String.[] h = cc
splitlines_keepends-rest (String.◌∷◌ c s) {l} {ls} h = elim (Bool-cases (ends_line c s)) [
  | inl e ↦
      let lines : splitlines_keepends s ≡ ls = ground (arith, splitlines_keepends-ends c s e, h) in
      rw (← lines) (ap splitlines_keepends (concat-splitlines_keepends s))
  | inr e ↦
      elim (lengthen_behind c (splitlines_keepends s)
        (sym (splitlines_keepends-goes_on c s e) ∙ h)) [
          | inl none_left ↦ rw none_left refl
          | inr (r, lines) ↦ splitlines_keepends-rest s lines
        ]
]

-- A line that others follow is complete: it stays the first line in front of any text that starts
-- with a newline only if they do.
first_line_stays :
    (s t : String) {l m : String} {ls : List String}
    → (not (starts_with_newline t) || starts_with_newline (concat (m ∷ ls))) ≡ true
    → splitlines_keepends s ≡ l ∷ m ∷ ls
    → splitlines_keepends (l <> t) ≡ l ∷ splitlines_keepends t
unfolding lengthen
first_line_stays String.[] t allowed h = absurd (no_line h)
first_line_stays (String.◌∷◌ c s) t {l} {m} {ls} allowed h = elim (Bool-cases (ends_line c s)) [
  | inl e ↦
      let one : l ≡ String.◌∷◌ c String.[] = ground (arith, splitlines_keepends-ends c s e, h) in
      let behind : splitlines_keepends s ≡ m ∷ ls =
        ground (arith, splitlines_keepends-ends c s e, h) in
      let text : concat (m ∷ ls) ≡ s = ap concat (sym behind) ∙ concat-splitlines_keepends s in
      rw one
        (splitlines_keepends-ends c t (ground (arith, e, allowed, ap starts_with_newline text)))
  | inr e ↦
      let (tail, rest, longer) =
        lengthen_more c (splitlines_keepends s) (sym (splitlines_keepends-goes_on c s e) ∙ h) in
      let same : ends_line c (tail <> t) ≡ false =
        ground (arith, e, starts_with_newline-first s t rest) in
      rw (longer, splitlines_keepends-goes_on c (tail <> t) same, first_line_stays s t allowed rest)
        refl
]

-- Lines of a text that others follow stay lines in front of any text that does not start with a
-- newline.
pub splitlines_keepends-before :
    (before : List String) (m : String) (after : List String) (s t : String)
    → starts_with_newline t ≡ false
    → splitlines_keepends s ≡ before ++ m ∷ after
    → splitlines_keepends (concat before <> t) ≡ before ++ splitlines_keepends t
unfolding concat
splitlines_keepends-before [] m after s t nt h = refl
splitlines_keepends-before (l ∷ []) m after s t nt h =
    rw (<>_assoc l "" t) (first_line_stays s t (ground (arith, nt)) h)
splitlines_keepends-before (l ∷ k ∷ before) m after s t nt h =
    let more : List String = before ++ m ∷ after in
    let behind = splitlines_keepends-rest s h in
    let ih = splitlines_keepends-before (k ∷ before) m after (concat (k ∷ more)) t nt behind in
    let starts = starts_with_newline-first (concat (k ∷ more)) (concat before <> t) behind in
    rw (<>_assoc l (k <> concat before) t) (
      first_line_stays s ((k <> concat before) <> t)
        (rw (<>_assoc k (concat before) t) (ground (arith, starts))) h
      ∙ ap (λ ls. l ∷ ls) ih)

-- The last lines of a text are the lines of what they make up.
pub splitlines_keepends-behind :
    (before after : List String) (s : String)
    → splitlines_keepends s ≡ before ++ after
    → splitlines_keepends (concat after) ≡ after
splitlines_keepends-behind [] after s h =
    rw (← h) (ap splitlines_keepends (concat-splitlines_keepends s))
splitlines_keepends-behind (l ∷ before) after s h =
    splitlines_keepends-behind before after (concat (before ++ after))
      (splitlines_keepends-rest s h)
