-- ===== src/Text/Matching.antt =====
-- How a pattern matches a text that was put together from words.
use task_control.Prelude.{String, ◌≡◌, ap, true, some, List, ◌∷◌, arith, ◌<>◌}
use task_control.Text.Lines.{has_no_space}
use task_control.Text.Patterns.{
  Item, token, some_space, match, Continuation, Groups, otherwise, group_starts,
  after_rest_of_token, after_token, after_some_space,
}

-- A text of at least one character, none of which is white space.
abbrev pub IsToken : String → Type 0
IsToken String.[] = ⊥
IsToken (String.◌∷◌ c w) = has_no_space (String.◌∷◌ c w) ≡ true

pub otherwise-some :
    (first second : Groups) {groups : List String}
    → first ≡ some groups
    → otherwise first second ≡ some groups
otherwise-some first second h = ground (arith, h)

pub group_starts-some :
    (found : Groups) {groups : List String}
    → found ≡ some groups
    → group_starts found ≡ some ("" ∷ groups)
group_starts-some found h = ap group_starts h

module _ (k : Continuation) (rest : String) {groups : List String} where
  -- A group takes every character up to the white space behind it, or up to the end.
  after_rest_of_token-append :
      (w : String)
      → has_no_space w ≡ true
      → after_rest_of_token k rest ≡ some ("" ∷ groups)
      → after_rest_of_token k (w <> rest) ≡ some (w ∷ groups)
  unfolding after_rest_of_token has_no_space
  after_rest_of_token-append String.[] h ends = ends
  after_rest_of_token-append (String.◌∷◌ c w) h ends = ground (arith, after_rest_of_token-append w)

  pub after_token-append :
      (w : String)
      → IsToken w
      → after_rest_of_token k rest ≡ some ("" ∷ groups)
      → after_token k (w <> rest) ≡ some (w ∷ groups)
  unfolding after_token has_no_space
  after_token-append String.[] h ends = elim h [ ]
  after_token-append (String.◌∷◌ c w) h ends = ground (arith, after_rest_of_token-append w)

module _ (items : List Item) (rest : String) {groups : List String} where
  -- the last group of a pattern
  pub match-token :
      (w : String)
      → IsToken w
      → after_rest_of_token (match items) rest ≡ some ("" ∷ groups)
      → match (token ∷ items) (w <> rest) ≡ some (w ∷ groups)
  unfolding match
  match-token = after_token-append (match items) rest

  -- a group with white space behind it
  pub match-token_space :
      (w : String)
      → IsToken w
      → match (some_space ∷ items) (" " <> rest) ≡ some groups
      → match (token ∷ some_space ∷ items) (w <> " " <> rest) ≡ some (w ∷ groups)
  unfolding match after_rest_of_token
  match-token_space w h found =
      after_token-append (after_some_space (match items)) (" " <> rest) w h
        (group_starts-some _ found)
