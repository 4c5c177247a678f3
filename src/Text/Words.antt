-- ===== src/Text/Words.antt =====
-- Words have no white space, and words that are joined by spaces have no line break.
use Prim.Native.Char.{code}
use task_control.Prelude.{
  ℕ, String, ◌≡◌, refl, Bool, true, false, List, [], ◌∷◌, All, arith, ◌<>◌, is_space, Bool-cases,
  inl, inr,
}
use task_control.Text.Lines.{
  is_line_break, has_no_break, has_no_space, split, join_words, lengthen, lengthen_word,
  starts_word,
}
use task_control.Text.Matching.{IsToken}
use task_control.Text.Splitting.{HasNoBreak}

-- White space has every line break among its characters.
break-is_space : (c : ℕ) → is_line_break c ≡ true → is_space c ≡ true
unfolding is_line_break is_space
break-is_space c h = ground arith

pub has_no_space-HasNoBreak : (w : String) → has_no_space w ≡ true → HasNoBreak w
unfolding has_no_space has_no_break
has_no_space-HasNoBreak String.[] h = refl
has_no_space-HasNoBreak (String.◌∷◌ c w) h =
    ground (arith, break-is_space (code c), has_no_space-HasNoBreak w)

pub IsToken-HasNoBreak : (w : String) → IsToken w → HasNoBreak w
IsToken-HasNoBreak String.[] h = elim h [ ]
IsToken-HasNoBreak (String.◌∷◌ c w) h = has_no_space-HasNoBreak (String.◌∷◌ c w) h

pub append-HasNoBreak : (s t : String) → HasNoBreak s → HasNoBreak t → HasNoBreak (s <> t)
unfolding has_no_break
append-HasNoBreak String.[] t hs ht = ht
append-HasNoBreak (String.◌∷◌ c s) t hs ht = ground (arith, append-HasNoBreak s t)

abbrev HasNoSpace : String → Type 0
HasNoSpace w = has_no_space w ≡ true

lengthen-HasNoSpace :
    (c : String) (ws : List String)
    → HasNoSpace c
    → ((w : String) → HasNoSpace w → HasNoSpace (c <> w))
    → All HasNoSpace ws
    → All HasNoSpace (lengthen c ws)
unfolding lengthen
lengthen-HasNoSpace c [] hc grow h = (hc, tt)
lengthen-HasNoSpace c (w ∷ ws) hc grow h = (grow w h.0, h.1)

lengthen_word-HasNoSpace :
    (c : String) (inside : Bool) (ws : List String)
    → HasNoSpace c
    → ((w : String) → HasNoSpace w → HasNoSpace (c <> w))
    → All HasNoSpace ws
    → All HasNoSpace (lengthen_word c inside ws)
unfolding lengthen_word
lengthen_word-HasNoSpace c true ws hc grow h = lengthen-HasNoSpace c ws hc grow h
lengthen_word-HasNoSpace c false ws hc grow h = (hc, h)

split-HasNoSpace : (s : String) → All HasNoSpace (split s)
unfolding split has_no_space
split-HasNoSpace String.[] = tt
split-HasNoSpace (String.◌∷◌ c s) = elim (Bool-cases (is_space (code c))) [
  | inl e ↦ rw e (split-HasNoSpace s)
  | inr e ↦ rw e (
      lengthen_word-HasNoSpace (String.◌∷◌ c String.[]) (starts_word s) (split s)
        (ground (arith, e)) (λ w h. ground (arith, e, h)) (split-HasNoSpace s))
]

join_words-HasNoBreak : (ws : List String) → All HasNoSpace ws → HasNoBreak (join_words ws)
unfolding join_words has_no_break
join_words-HasNoBreak [] h = refl
join_words-HasNoBreak (w ∷ []) h = has_no_space-HasNoBreak w h.0
join_words-HasNoBreak (w ∷ v ∷ ws) h =
    append-HasNoBreak w (" " <> join_words (v ∷ ws)) (has_no_space-HasNoBreak w h.0)
      (join_words-HasNoBreak (v ∷ ws) h.1)

-- However many lines a text has, its words make up one line.
pub collapsed-HasNoBreak : (s : String) → HasNoBreak (join_words (split s))
collapsed-HasNoBreak s = join_words-HasNoBreak (split s) (split-HasNoSpace s)
