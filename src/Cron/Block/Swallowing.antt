-- ===== src/Cron/Block/Swallowing.antt =====
-- A second end marker.
use task_control.Cron.Block.{
  read_block_line, block_bounds, scan_bounds, find_block_members, members_between, members_in,
  inside, assert_members_unique, remove_block_member, remove_member_at, remove_from, remaining,
}
use task_control.Cron.Block.Bounds.{IsOther, scan_bounds-other}
use task_control.Cron.Markers.{block_begin_marker, block_end_marker, match_member}
use task_control.Cron.Regions.{splice}
use task_control.Errors.{ok}
use task_control.Prelude.{arith, String, ◌≡◌, refl, ap, none, some, List, [], ◌∷◌, All, concat}
use task_control.Text.Lines.{splitlines, splitlines_keepends, join_lines, has_no_break}
use task_control.Text.Splitting.{HasNoBreak, splitlines-join_lines, splitlines_keepends-joined}

end_is_no_member : match_member block_end_marker ≡ none
unfolding match_member
end_is_no_member = refl

members_in-skip :
    (line : String) (lines : List String)
    → match_member line ≡ none
    → members_in (line ∷ lines) ≡ members_in lines
unfolding members_in
members_in-skip line lines e = ground (arith, e)

module _ (foreign : String) (h : HasNoBreak foreign) (other : IsOther foreign)
    (no_entry : match_member foreign ≡ none) where
  -- an empty block, a foreign line, and an end marker too many
  abbrev pub two_ends : List String
  two_ends = block_begin_marker ∷ block_end_marker ∷ foreign ∷ block_end_marker ∷ []

  two_ends-HasNoBreak : All HasNoBreak two_ends
  unfolding has_no_break
  two_ends-HasNoBreak = (refl, (refl, (h, (refl, tt))))

  two_ends-splitlines : splitlines (join_lines two_ends) ≡ two_ends
  two_ends-splitlines = splitlines-join_lines two_ends two_ends-HasNoBreak

  two_ends-bounds : block_bounds (join_lines two_ends) ≡ ok (some (0, 3))
  unfolding block_bounds scan_bounds read_block_line
  two_ends-bounds =
      rw
        (
          two_ends-splitlines,
          scan_bounds-other foreign 2 (block_end_marker ∷ []) (some 0) (some 1) other,
        )
        refl

  two_ends-members : find_block_members (join_lines two_ends) ≡ ok []
  unfolding find_block_members members_between inside members_in assert_members_unique
  two_ends-members =
      rw
        (
          two_ends-bounds,
          two_ends-splitlines,
          members_in-skip block_end_marker (foreign ∷ []) end_is_no_member,
          members_in-skip foreign [] no_entry,
        )
        refl

  two_ends-gone : splice 0 3 [] (splitlines_keepends (join_lines two_ends)) ≡ ""
  unfolding splice concat
  two_ends-gone = rw (splitlines_keepends-joined two_ends two_ends-HasNoBreak) refl

-- `_block_bounds` takes the last of several end markers for the end of the block. In a crontab of an
-- empty block, one line behind it and an end marker too many, removing any task deletes the line, if
-- it is no block marker and no identity comment: the text that is left is empty.
pub foreign_line_is_lost :
    (foreign slug : String)
    → HasNoBreak foreign
    → IsOther foreign
    → match_member foreign ≡ none
    → remove_block_member
        (join_lines (block_begin_marker ∷ block_end_marker ∷ foreign ∷ block_end_marker ∷ []))
        slug
      ≡ ok ""
unfolding remove_block_member remove_member_at remove_from remaining
foreign_line_is_lost foreign slug h other no_entry =
    rw (two_ends-bounds foreign h other no_entry, two_ends-members foreign h other no_entry)
      (ap ok (two_ends-gone foreign h other no_entry))
