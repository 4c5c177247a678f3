-- ===== src/Cron/Markers.antt =====
-- The marker lines of src/taskcontrol/adapters/schedulers/cron/rendering.py, written and read.
pub mod Reading
use Prim.Native.Char.{code}
use task_control.Cron.Artefact.{DesiredArtefact}
use task_control.Prelude.{
  String, Bool, false, ◌==◌, Option, none, some, List, [], ◌∷◌, ◌++◌, concat,
}
use task_control.Text.Patterns.{Item, word, spaces, some_space, token, match, Groups}

abbrev pub marker_prefix : String
marker_prefix = "taskcontrol"

-- `_BEGIN`
abbrev pub begin_pattern : List Item
begin_pattern =
    word "#"
    ∷ spaces
    ∷ word ">>>"
    ∷ spaces
    ∷ word "taskcontrol"
    ∷ some_space
    ∷ word "task="
    ∷ token
    ∷ some_space
    ∷ word "id="
    ∷ token
    ∷ some_space
    ∷ word "digest="
    ∷ token
    ∷ spaces
    ∷ word ">>>"
    ∷ spaces
    ∷ []

-- `_END`
abbrev pub end_pattern : List Item
end_pattern =
    word "#"
    ∷ spaces
    ∷ word "<<<"
    ∷ spaces
    ∷ word "taskcontrol"
    ∷ some_space
    ∷ word "task="
    ∷ token
    ∷ spaces
    ∷ word "<<<"
    ∷ spaces
    ∷ []

-- `_BLOCK_BEGIN`, `_BLOCK_END` and `_MEMBER`
abbrev pub block_begin_pattern : List Item
block_begin_pattern =
    word "#"
    ∷ spaces
    ∷ word ">>>"
    ∷ spaces
    ∷ word "taskcontrol"
    ∷ some_space
    ∷ word "block"
    ∷ spaces
    ∷ word ">>>"
    ∷ spaces
    ∷ []

abbrev pub block_end_pattern : List Item
block_end_pattern =
    word "#"
    ∷ spaces
    ∷ word "<<<"
    ∷ spaces
    ∷ word "taskcontrol"
    ∷ some_space
    ∷ word "block"
    ∷ spaces
    ∷ word "<<<"
    ∷ spaces
    ∷ []

abbrev pub member_pattern : List Item
member_pattern =
    word "#"
    ∷ spaces
    ∷ word "taskcontrol"
    ∷ some_space
    ∷ word "task="
    ∷ token
    ∷ some_space
    ∷ word "id="
    ∷ token
    ∷ some_space
    ∷ word "digest="
    ∷ token
    ∷ spaces
    ∷ []

-- The three groups of a begin marker and of an identity comment.
pub record Identity : Type 0 where
  pub slug : String
  pub task_id : String
  pub digest : String

abbrev identity_of : Groups → Option Identity
identity_of (some (slug ∷ task_id ∷ digest ∷ [])) =
    some (record { slug = slug; task_id = task_id; digest = digest })
identity_of _ = none

abbrev slug_of : Groups → Option String
slug_of (some (slug ∷ [])) = some slug
slug_of _ = none

unfoldable pub match_begin : String → Option Identity
unfolding match
match_begin line = identity_of (match begin_pattern line)

unfoldable pub match_end : String → Option String
unfolding match
match_end line = slug_of (match end_pattern line)

unfoldable pub match_member : String → Option Identity
unfolding match
match_member line = identity_of (match member_pattern line)

-- whether a line can be a marker at all
unfoldable pub starts_with_hash : String → Bool
starts_with_hash String.[] = false
starts_with_hash (String.◌∷◌ c s) = code c == b'#'

abbrev pub block_begin_marker : String
block_begin_marker = "# >>> taskcontrol block >>>"

abbrev pub block_end_marker : String
block_end_marker = "# <<< taskcontrol block <<<"

unfoldable pub begin_marker : DesiredArtefact → String
unfolding concat
begin_marker a = concat (
    "# >>> " ∷ marker_prefix ∷ " task=" ∷ a.slug ∷ " id=" ∷ a.task_id ∷ " digest="
    ∷ a.content_digest ∷ " >>>" ∷ [])

unfoldable pub end_marker : String → String
unfolding concat
end_marker slug = concat ("# <<< " ∷ marker_prefix ∷ " task=" ∷ slug ∷ " <<<" ∷ [])

-- the identity comment of an entry in the block
unfoldable pub member_comment : DesiredArtefact → String
unfolding concat
member_comment a = concat (
    "# " ∷ marker_prefix ∷ " task=" ∷ a.slug ∷ " id=" ∷ a.task_id ∷ " digest=" ∷ a.content_digest
    ∷ [])
