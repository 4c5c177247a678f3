-- ===== src/Cron/Regions.antt =====
-- The marked regions of a crontab: `find_managed_regions`, `replace_region` and `remove_region`
-- (src/taskcontrol/adapters/schedulers/cron/rendering.py). Line numbers count from 0.
pub mod Appending
pub mod Pieces
pub mod Unique
pub mod Finding
pub mod Exactly
pub mod Locating
pub mod Rewriting
pub mod Registry
pub mod Rendered
pub mod Deploying
pub mod Undeploying
pub mod Forging
use task_control.Cron.Markers.{Identity, match_begin, match_end}
use task_control.Errors.{Result, ok, raise, validation_error, ◌>>=◌, ◌>>◌}
use task_control.Prelude.{
  ℕ, suc, ◌+◌, String, Bool, true, false, not, Option, none, some, List, [], ◌∷◌, ◌++◌,
  if◌then◌else◌, str_eq, any, take, drop, find?, concat, ◌<>◌,
}
use task_control.Text.Lines.{splitlines, splitlines_keepends, ends_with_newline, join_lines}

pub record ManagedRegion : Type 0 where
  pub slug : String
  pub task_id : String
  pub digest : String
  pub start : ℕ
  pub end : ℕ
  pub lines : List String

-- `ManagedRegion.text`
unfoldable pub region_text : ManagedRegion → String
unfolding join_lines
region_text r = join_lines r.lines

-- What the two patterns say of a line, tried in this order.
pub data Reading : Type 0 where
  begins : Identity → Reading
  ends : String → Reading
  plain : Reading

abbrev reading : Option Identity → Option String → Reading
reading (some identity) _ = begins identity
reading none (some slug) = ends slug
reading none none = plain

unfoldable pub read_line : String → Reading
unfolding match_begin match_end
read_line line = reading (match_begin line) (match_end line)

-- `opening` and `open_at`, with the lines from there on: `lines[open_at : index]`
pub record Opening : Type 0 where
  pub identity : Identity
  pub open_at : ℕ
  pub lines : List String

unfoldable pub close : Opening → ℕ → String → ManagedRegion
close o index line = record {
  slug = o.identity.slug;
  task_id = o.identity.task_id;
  digest = o.identity.digest;
  start = o.open_at;
  end = index;
  lines = o.lines ++ line ∷ [];
}

abbrev pub with_region : ManagedRegion → Result (List ManagedRegion) → Result (List ManagedRegion)
with_region region (ok regions) = ok (region ∷ regions)
with_region region (raise e) = raise e

-- the loop of `find_managed_regions` with the check behind it, from the line `index` on
unfoldable pub scan : ℕ → Option Opening → List String → Result (List ManagedRegion)
unfolding close
scan index none [] = ok []
scan index (some o) [] =
    validation_error
      "A managed region begins and never ends. Something truncated the file, or an end marker was deleted by hand."
scan index none (line ∷ lines) = elim (read_line line) [
  | begins identity ↦
      scan (suc index) (some (record { identity = identity; open_at = index; lines = line ∷ [] }))
        lines
  | ends slug ↦ validation_error "A managed region ends without having begun."
  | plain ↦ scan (suc index) none lines
]
scan index (some o) (line ∷ lines) = elim (read_line line) [
  | begins identity ↦
      validation_error
        "A managed region begins inside another managed region. TaskControl will not guess where one ends and the next starts."
  | ends slug ↦
      if not (str_eq slug o.identity.slug)
      then validation_error "A managed region ends with a different task than it began with."
      else with_region (close o index line) (scan (suc index) none lines)
  | plain ↦ scan (suc index) (some (record o { lines = o.lines ++ line ∷ [] })) lines
]

-- `_assert_unique`, with the keys of `seen`
unfoldable pub assert_unique : List String → List ManagedRegion → Result (Unit {0})
assert_unique seen [] = ok tt
assert_unique seen (region ∷ regions) =
    let rest = assert_unique (region.task_id ∷ seen) regions in
    if any (str_eq region.task_id) seen
    then validation_error (
        concat (
          "Two managed regions claim the task '" ∷ region.slug
          ∷ "'. Rewriting either one could leave the other running stale work, so TaskControl will not choose between them. Remove the wrong region by hand."
          ∷ []))
    else rest

unfoldable pub find_managed_regions : String → Result (List ManagedRegion)
unfolding scan assert_unique splitlines read_line
find_managed_regions content = do
  regions ← scan 0 none (splitlines content)
  assert_unique [] regions
  ok regions

-- the first region of a task
unfoldable pub region_of : String → List ManagedRegion → Option ManagedRegion
region_of slug = find? (λ region. str_eq region.slug slug)

unfoldable pub separator : String → String
unfolding ends_with_newline
separator content = if ends_with_newline content then "" else "\n"

-- `f"{content}{separator}{rendered}"`, or the rendered text where there is no content
unfoldable pub append_to : String → String → String
unfolding separator
append_to content rendered =
    if str_eq content "" then rendered else content <> separator content <> rendered

-- `"".join(lines[:start] + middle + lines[end + 1:])`
unfoldable pub splice : ℕ → ℕ → List String → List String → String
unfolding concat
splice start end middle lines = concat (take start lines ++ (middle ++ drop (suc end) lines))

replace_at : String → String → Option ManagedRegion → String
replace_at content rendered none = append_to content rendered
replace_at content rendered (some region) =
    splice region.start region.end (splitlines_keepends rendered) (splitlines_keepends content)

unfoldable pub replace_region : String → String → String → Result String
unfolding replace_at
replace_region content slug rendered = do
  regions ← find_managed_regions content
  ok (replace_at content rendered (region_of slug regions))

remove_at : String → Option ManagedRegion → String
remove_at content none = content
remove_at content (some region) = splice region.start region.end [] (splitlines_keepends content)

unfoldable pub remove_region : String → String → Result String
unfolding remove_at
remove_region content slug = do
  regions ← find_managed_regions content
  ok (remove_at content (region_of slug regions))
