-- ===== src/Cron/Block.antt =====
-- The single managed block: `find_block_members`, `upsert_block_member` and `remove_block_member`
-- (src/taskcontrol/adapters/schedulers/cron/rendering.py). Line numbers count from 0.
pub mod Bounds
pub mod Entries
pub mod Swallowing
pub mod Writing
use task_control.Cron.Markers.{
  Identity, match_member, block_begin_pattern, block_end_pattern, block_begin_marker,
  block_end_marker,
}
use task_control.Cron.Regions.{append_to, splice}
use task_control.Cron.Rendering.{generated_notice}
use task_control.Errors.{Result, ok, raise, validation_error, ◌>>=◌, ◌>>◌}
use task_control.Prelude.{
  ℕ, suc, ◌+◌, ◌-◌, String, Bool, true, false, not, Option, none, some, List, [], ◌∷◌, ◌++◌, map,
  if◌then◌else◌, str_eq, any, take, drop, find?, concat, is_some,
}
use task_control.Text.Lines.{splitlines, splitlines_keepends, join_lines}
use task_control.Text.Patterns.{match}

pub record BlockMember : Type 0 where
  pub slug : String
  pub task_id : String
  pub digest : String
  pub lines : List String

-- `BlockMember.text`
unfoldable pub member_text : BlockMember → String
unfolding join_lines
member_text m = join_lines m.lines

-- What the two patterns say of a line, tried in this order.
pub data BlockReading : Type 0 where
  block_begins block_ends other : BlockReading

unfoldable pub read_block_line : String → BlockReading
unfolding match
read_block_line line =
    if is_some (match block_begin_pattern line)
    then block_begins
    else if is_some (match block_end_pattern line)
    then block_ends
    else other

abbrev pub Bounds : Type 0
Bounds = Option (ℕ × ℕ)

-- what the loop of `_block_bounds` ends with
bounds : Option ℕ → Option ℕ → Result Bounds
bounds none _ = ok none
bounds (some start) none =
    validation_error
      "The managed block begins and never ends. Something truncated the file, or an end marker was deleted by hand."
bounds (some start) (some end) = ok (some (start, end))

-- the loop, with `start` and `end`, from the line `index` on
unfoldable pub scan_bounds : ℕ → Option ℕ → Option ℕ → List String → Result Bounds
unfolding bounds
scan_bounds index start end [] = bounds start end
scan_bounds index start end (line ∷ lines) = elim (read_block_line line) [
  | block_begins ↦
      if is_some start
      then validation_error
          "The crontab contains two managed blocks. TaskControl will not choose between them."
      else scan_bounds (suc index) (some index) end lines
  | block_ends ↦
      if is_some start
      then scan_bounds (suc index) start (some index) lines
      else validation_error "A managed block ends without having begun."
  | other ↦ scan_bounds (suc index) start end lines
]

-- `_block_bounds`
unfoldable pub block_bounds : String → Result Bounds
unfolding scan_bounds
block_bounds content = scan_bounds 0 none none (splitlines content)

-- `_member`
unfoldable pub member : Identity → List String → BlockMember
member identity lines = record {
  slug = identity.slug;
  task_id = identity.task_id;
  digest = identity.digest;
  lines = lines;
}

-- the loop of `find_block_members`, where an identity comment was read, with its lines so far
collect : Identity → List String → List String → List BlockMember
unfolding member
collect current body [] = member current body ∷ []
collect current body (line ∷ lines) = elim (match_member line) [
  | some identity ↦ member current body ∷ collect identity (line ∷ []) lines
  | none ↦ collect current (body ++ line ∷ []) lines
]

-- the loop before the first identity comment
unfoldable pub members_in : List String → List BlockMember
unfolding collect
members_in [] = []
members_in (line ∷ lines) = elim (match_member line) [
  | some identity ↦ collect identity (line ∷ []) lines
  | none ↦ members_in lines
]

-- `_assert_members_unique`
unfoldable pub assert_members_unique : List String → List BlockMember → Result (Unit {0})
assert_members_unique seen [] = ok tt
assert_members_unique seen (m ∷ members) =
    let rest = assert_members_unique (m.task_id ∷ seen) members in
    if any (str_eq m.task_id) seen
    then validation_error (
        concat (
          "The managed block contains two entries for '" ∷ m.slug
          ∷ "'. Rewriting either could leave the other running stale work, so TaskControl will not choose between them. Remove the wrong entry by hand."
          ∷ []))
    else rest

-- `lines[start + 1 : end]`
unfoldable pub inside : ℕ → ℕ → List String → List String
inside start end lines = drop (suc start) (take end lines)

members_between : String → Bounds → Result (List BlockMember)
members_between content none = ok []
members_between content (some (start, end)) = do
  let members = members_in (inside start end (splitlines content))
  assert_members_unique [] members
  ok members

unfoldable pub find_block_members : String → Result (List BlockMember)
unfolding members_between
find_block_members content = block_bounds content >>= members_between content

-- the text of a block with these entries
unfoldable pub block_text : String → String
block_text entries =
    concat
      (block_begin_marker ∷ "\n" ∷ generated_notice ∷ "\n" ∷ entries ∷ block_end_marker ∷ "\n" ∷ [])

-- `_rewrite_block`
unfoldable pub rewrite_block : String → ℕ → ℕ → List String → String
rewrite_block content start end members =
    splice start end (block_text (concat members) ∷ []) (splitlines_keepends content)

-- the texts of the entries, with the new one in the place of its predecessor
unfoldable pub replace_member : String → String → List BlockMember → List String
unfolding member_text
replace_member slug rendered [] = []
replace_member slug rendered (m ∷ members) =
    (if str_eq m.slug slug then rendered else member_text m) ∷ replace_member slug rendered members

unfoldable pub has_member : String → List BlockMember → Bool
has_member slug = any (λ m. str_eq m.slug slug)

unfoldable pub rebuilt : String → String → List BlockMember → List String
unfolding replace_member has_member
rebuilt slug rendered members =
    if has_member slug members
    then replace_member slug rendered members
    else replace_member slug rendered members ++ rendered ∷ []

upsert_at : String → String → String → Bounds → Result String
upsert_at content slug rendered none = ok (append_to content (block_text rendered))
upsert_at content slug rendered (some (start, end)) = do
  members ← find_block_members content
  ok (rewrite_block content start end (rebuilt slug rendered members))

unfoldable pub upsert_block_member : String → String → String → Result String
unfolding upsert_at
upsert_block_member content slug rendered = block_bounds content >>= upsert_at content slug rendered

-- `[member.text for member in members if member.slug != slug]`
unfoldable pub remaining : String → List BlockMember → List String
unfolding member_text
remaining slug [] = []
remaining slug (m ∷ members) =
    if str_eq m.slug slug then remaining slug members else member_text m ∷ remaining slug members

remove_from : String → ℕ → ℕ → List String → String
remove_from content start end [] = splice start end [] (splitlines_keepends content)
remove_from content start end members = rewrite_block content start end members

remove_member_at : String → String → Bounds → Result String
unfolding remove_from
remove_member_at content slug none = ok content
remove_member_at content slug (some (start, end)) = do
  members ← find_block_members content
  ok (remove_from content start end (remaining slug members))

unfoldable pub remove_block_member : String → String → Result String
unfolding remove_member_at
remove_block_member content slug = block_bounds content >>= remove_member_at content slug
