-- ===== src/Text/Lines.antt =====
-- `str.splitlines`, `"\n".join`, `str.endswith("\n")`, `str.split` and `" ".join`.
use Prim.Native.Char.{code}
use task_control.Prelude.{
  ℕ, String, Bool, true, false, not, ◌&&◌, ◌||◌, List, [], ◌∷◌, map, leb, ◌==◌, if◌then◌else◌,
  is_space, ◌<>◌,
}

-- the characters that `str.splitlines` ends a line at; `\r\n` ends one line
unfoldable pub is_line_break : ℕ → Bool
is_line_break c =
    (leb 10 c && leb c 13) || (leb 28 c && leb c 30) || c == 0x85 || c == 0x2028 || c == 0x2029

unfoldable pub starts_with_newline : String → Bool
starts_with_newline String.[] = false
starts_with_newline (String.◌∷◌ c s) = code c == 10

-- puts a character in front of the first line
unfoldable pub lengthen : String → List String → List String
lengthen c [] = c ∷ []
lengthen c (l ∷ ls) = (c <> l) ∷ ls

-- `s.splitlines(keepends=True)`
unfoldable pub splitlines_keepends : String → List String
unfolding lengthen starts_with_newline is_line_break
splitlines_keepends String.[] = []
splitlines_keepends (String.◌∷◌ c s) =
    let rest = splitlines_keepends s in
    let char = String.◌∷◌ c String.[] in
    if is_line_break (code c) && not (code c == 13 && starts_with_newline s)
    then char ∷ rest
    else lengthen char rest

-- a line without the break that ends it
unfoldable pub chop : String → String
unfolding is_line_break
chop String.[] = ""
chop (String.◌∷◌ c s) = if is_line_break (code c) then "" else String.◌∷◌ c (chop s)

-- `s.splitlines()`
unfoldable pub splitlines : String → List String
unfolding splitlines_keepends chop
splitlines s = map chop (splitlines_keepends s)

-- `"\n".join(lines) + "\n"`, for at least one line
unfoldable pub join_lines : List String → String
join_lines [] = ""
join_lines (l ∷ ls) = l <> "\n" <> join_lines ls

-- `s.endswith("\n")`
unfoldable pub ends_with_newline : String → Bool
ends_with_newline String.[] = false
ends_with_newline (String.◌∷◌ c String.[]) = code c == 10
ends_with_newline (String.◌∷◌ c (String.◌∷◌ d s)) = ends_with_newline (String.◌∷◌ d s)

-- whether a text has no line break, and no white space
unfoldable pub has_no_break : String → Bool
unfolding is_line_break
has_no_break String.[] = true
has_no_break (String.◌∷◌ c s) = not (is_line_break (code c)) && has_no_break s

unfoldable pub has_no_space : String → Bool
unfolding is_space
has_no_space String.[] = true
has_no_space (String.◌∷◌ c s) = not (is_space (code c)) && has_no_space s

-- the words of `s`, where `inside` says that a word goes on at its start
unfoldable pub lengthen_word : String → Bool → List String → List String
unfolding lengthen
lengthen_word c true words = lengthen c words
lengthen_word c false words = c ∷ words

unfoldable pub starts_word : String → Bool
unfolding is_space
starts_word String.[] = false
starts_word (String.◌∷◌ c s) = not (is_space (code c))

-- `s.split()`: the words between white space
unfoldable pub split : String → List String
unfolding lengthen_word starts_word is_space
split String.[] = []
split (String.◌∷◌ c s) =
    let rest = split s in
    if is_space (code c) then rest else lengthen_word (String.◌∷◌ c String.[]) (starts_word s) rest

-- `" ".join(words)`
unfoldable pub join_words : List String → String
join_words [] = ""
join_words (w ∷ []) = w
join_words (w ∷ v ∷ ws) = w <> " " <> join_words (v ∷ ws)
