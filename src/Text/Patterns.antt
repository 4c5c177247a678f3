-- ===== src/Text/Patterns.antt =====
-- The regular expressions of src/taskcontrol/adapters/schedulers/cron/rendering.py, matched as
-- `re.match` does: greedily, with backtracking, and with the text of each group.
use Prim.Native.Char.{code}
use task_control.Prelude.{
  String, Option, none, some, List, [], ◌∷◌, ◌==◌, if◌then◌else◌, is_space, ◌<>◌,
}

-- A literal, `\s*`, `\s+`, and the group `(?P<...>\S+)`. A pattern ends with `$`.
pub data Item : Type 0 where
  word : String → Item
  spaces some_space token : Item

abbrev pub Groups : Type 0
Groups = Option (List String)

-- what a pattern does with the rest of the text
abbrev pub Continuation : Type 0
Continuation = String → Groups

-- the second attempt, where the first fails
abbrev pub otherwise : Groups → Groups → Groups
otherwise (some groups) other = some groups
otherwise none other = other

abbrev pub group_starts : Groups → Groups
group_starts none = none
group_starts (some groups) = some ("" ∷ groups)

abbrev pub group_grows : String → Groups → Groups
group_grows c (some (g ∷ groups)) = some ((c <> g) ∷ groups)
group_grows c _ = none

-- `$`: at the end, or before a newline there
unfoldable pub at_end : Continuation
at_end String.[] = some []
at_end (String.◌∷◌ c String.[]) = if code c == 10 then some [] else none
at_end _ = none

unfoldable pub after_word : String → Continuation → Continuation
after_word String.[] k s = k s
after_word (String.◌∷◌ a w) k String.[] = none
after_word (String.◌∷◌ a w) k (String.◌∷◌ c s) = if code a == code c then after_word w k s else none

unfoldable pub after_spaces : Continuation → Continuation
unfolding is_space
after_spaces k String.[] = k ""
after_spaces k (String.◌∷◌ c s) =
    if is_space (code c)
    then otherwise (after_spaces k s) (k (String.◌∷◌ c s))
    else k (String.◌∷◌ c s)

unfoldable pub after_some_space : Continuation → Continuation
unfolding after_spaces
after_some_space k String.[] = none
after_some_space k (String.◌∷◌ c s) = if is_space (code c) then after_spaces k s else none

-- `\S*`, the rest of a group
unfoldable pub after_rest_of_token : Continuation → Continuation
unfolding is_space
after_rest_of_token k String.[] = group_starts (k "")
after_rest_of_token k (String.◌∷◌ c s) =
    if is_space (code c)
    then group_starts (k (String.◌∷◌ c s))
    else otherwise (group_grows (String.◌∷◌ c String.[]) (after_rest_of_token k s))
        (group_starts (k (String.◌∷◌ c s)))

unfoldable pub after_token : Continuation → Continuation
unfolding after_rest_of_token
after_token k String.[] = none
after_token k (String.◌∷◌ c s) =
    if is_space (code c)
    then none
    else group_grows (String.◌∷◌ c String.[]) (after_rest_of_token k s)

-- `re.match(pattern, text)` with the groups of the match
unfoldable pub match : List Item → Continuation
unfolding at_end after_word after_spaces after_some_space after_token
match [] s = at_end s
match (word w ∷ items) s = after_word w (match items) s
match (spaces ∷ items) s = after_spaces (match items) s
match (some_space ∷ items) s = after_some_space (match items) s
match (token ∷ items) s = after_token (match items) s
