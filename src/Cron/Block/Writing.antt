-- ===== src/Cron/Block/Writing.antt =====
-- What `upsert_block_member` and `remove_block_member` do to the lines of a crontab.
use task_control.Cron.Block.{
  BlockMember, Bounds, block_begins, block_ends, read_block_line, block_bounds, find_block_members,
  block_text, rewrite_block, rebuilt, remaining, upsert_block_member, remove_block_member,
  upsert_at, remove_member_at, remove_from,
}
use task_control.Cron.Block.Bounds.{IsOther, IsNoBegin, IsBlock, block_bounds-IsBounded}
use task_control.Cron.Block.Entries.{
  block_with, IsUpserted, AreOthers, IsBlockOf, none_left, some_left, rebuilt-IsUpserted,
  remaining-AreOthers,
}
use task_control.Cron.Regions.{append_to, splice}
use task_control.Cron.Regions.Appending.{IsAppended, append_to-IsAppended}
use task_control.Cron.Regions.Locating.{splice-concat}
use task_control.Errors.{Result, ok, raise, Exception, ◌>>=◌}
use task_control.Prelude.{
  ℕ, suc, ◌+◌, String, ◌≡◌, refl, ap, sym, ◌∙◌, none, some, List, [], ◌∷◌, ◌++◌, map, map-split,
  length, length-append, All, arith, concat, ◌<>◌, <>-empty,
}
use mathlib.Core.Path.{subst, fun_ext}
use task_control.Text.Lines.{chop, splitlines, splitlines_keepends}

-- A crontab with a block: the lines before it and behind it, which are no block markers, and its own.
pub record HasBlock (content : String) (start end : ℕ) : Type 0 where
  pub before : List String
  pub block : List String
  pub after : List String
  pub whole : splitlines_keepends content ≡ before ++ (block ++ after)
  pub none_before : All IsOther (map chop before)
  pub none_after : All IsOther (map chop after)
  pub first : String
  pub between : List String
  pub last : String
  pub extent : map chop block ≡ first ∷ between ++ last ∷ []
  pub opens : read_block_line first ≡ block_begins
  pub none_between : All IsNoBegin between
  pub closes : read_block_line last ≡ block_ends
  pub start_place : start ≡ length before
  pub end_place : suc end ≡ length before + length block

length-map : {A B : Type 0} (f : A → B) (xs : List A) → length (map f xs) ≡ length xs
length-map f [] = refl
length-map f (x ∷ xs) = ap suc (length-map f xs)

block_bounds-HasBlock :
    (content : String) (start end : ℕ)
    → block_bounds content ≡ ok (some (start, end))
    → HasBlock content start end
unfolding splitlines
block_bounds-HasBlock content start end h =
    let b : IsBlock 0 (splitlines content) start end =
      block_bounds-IsBounded content (some (start, end)) h in
    let inner = b.first ∷ b.between ++ b.last ∷ [] in
    let (before, rest, whole, of_before, of_rest) =
      map-split chop (splitlines_keepends content) b.before (inner ++ b.after) b.whole in
    let (block, after, rest_whole, of_block, of_after) =
      map-split chop rest inner b.after of_rest in
    record {
      before = before;
      block = block;
      after = after;
      whole = whole ∙ ap (λ ls. before ++ ls) rest_whole;
      none_before = subst (All IsOther) (sym of_before) b.none_before;
      none_after = subst (All IsOther) (sym of_after) b.none_after;
      first = b.first;
      between = b.between;
      last = b.last;
      extent = of_block;
      opens = b.opens;
      none_between = b.none_between;
      closes = b.closes;
      start_place = omega (arith, b.start_place, length-map chop before, ap length of_before);
      end_place = omega (
        arith,
        b.start_place,
        b.end_place,
        length-map chop before,
        ap length of_before,
        length-map chop block,
        ap length of_block,
        length-append (b.first ∷ b.between) (b.last ∷ []),
      );
    }

-- What writing the block can come to. `Absent` says of the text what it is where there is no
-- block, and `Act` of the text that takes the place of the block, by the entries that were found in it.
pub data Writes (content : String) (Absent : String → Type 0)
    (Act : List BlockMember → String → Type 0) : Result String → Type 0 where
  refused :
      (e : Exception) → find_block_members content ≡ raise e → Writes content Absent Act (raise e)
  no_block :
      (updated : String)
      → block_bounds content ≡ ok none
      → All IsOther (splitlines content)
      → Absent updated
      → Writes content Absent Act (ok updated)
  written :
      (start end : ℕ) (b : HasBlock content start end) (members : List BlockMember)
      (middle : String)
      → find_block_members content ≡ ok members
      → Act members middle
      → Writes content Absent Act (ok (concat b.before <> middle <> concat b.after))

splice-HasBlock :
    (content : String) (start end : ℕ) (b : HasBlock content start end) (middle : List String)
    → splice start end middle (splitlines_keepends content)
      ≡ concat b.before <> concat middle <> concat b.after
splice-HasBlock content start end b middle =
    rw b.whole (splice-concat b.before b.block b.after middle start end b.start_place b.end_place)

module _ (content : String) (Absent : String → Type 0) (Act : List BlockMember → String → Type 0)
    (middle : List BlockMember → List String)
    (acts : (members : List BlockMember) → Act members (concat (middle members))) where
  members-Writes :
      (start end : ℕ)
      → block_bounds content ≡ ok (some (start, end))
      → (found : Result (List BlockMember)) → find_block_members content ≡ found
      → Writes content Absent Act (
          found >>= λ members. ok (splice start end (middle members) (splitlines_keepends content)))
  members-Writes start end h (raise e) raised = refused e raised
  members-Writes start end h (ok members) found =
      let b = block_bounds-HasBlock content start end h in
      rw (splice-HasBlock content start end b (middle members))
        (written start end b members (concat (middle members)) found (acts members))

  bounds-Writes :
      (write : Bounds → Result String) (updated : String)
      → write none ≡ ok updated
      → Absent updated
      → ((start end : ℕ)
          → write (some (start, end)) ≡ (
              find_block_members content >>= λ members.
              ok (splice start end (middle members) (splitlines_keepends content))))
      → (found : Result Bounds) → block_bounds content ≡ found
      → Writes content Absent Act (found >>= write)
  unfolding find_block_members
  bounds-Writes write updated at_none absent at_some (raise e) raised = refused e (rw raised refl)
  bounds-Writes write updated at_none absent at_some (ok none) found =
      rw at_none (no_block updated found (block_bounds-IsBounded content none found) absent)
  bounds-Writes write updated at_none absent at_some (ok (some (start, end))) found =
      rw (at_some start end) (members-Writes start end found (find_block_members content) refl)

-- `upsert_block_member` raises what `find_block_members` raises, and nothing else. Otherwise, where
-- there is no block marker in the text, a block with the one entry is appended, on a line of its own;
-- where there is a block, it is written anew with the entries that were found in it, in their order,
-- those of the task replaced in their places, or the new one added at the end where there are none,
-- and every line before and behind the block is kept as it was.
pub upsert_exact :
    (content slug rendered : String)
    → Writes content
        (λ text. IsAppended content (block_with (rendered ∷ [])) text)
        (λ members text.
          (entries : List String) × IsUpserted slug rendered members entries
          × (text ≡ block_with entries))
        (upsert_block_member content slug rendered)
unfolding upsert_block_member rewrite_block block_text concat
upsert_exact content slug rendered =
    bounds-Writes content _ _ (λ members. block_text (concat (rebuilt slug rendered members)) ∷ [])
      (λ members. (
        rebuilt slug rendered members,
        rebuilt-IsUpserted slug rendered members,
        <>-empty (block_text (concat (rebuilt slug rendered members))),
      ))
      (upsert_at content slug rendered) (append_to content (block_text rendered)) refl
      (subst
        (λ entry. IsAppended content (block_text entry) (append_to content (block_text rendered)))
        (sym (<>-empty rendered)) (append_to-IsAppended content (block_text rendered)))
      (λ start end. refl) (block_bounds content) refl

middle_of : List String → List String
middle_of [] = []
middle_of entries = block_text (concat entries) ∷ []

middle_of-IsBlockOf : (entries : List String) → IsBlockOf entries (concat (middle_of entries))
unfolding middle_of block_text concat
middle_of-IsBlockOf [] = none_left
middle_of-IsBlockOf (e ∷ es) =
    subst (IsBlockOf (e ∷ es)) (sym (<>-empty (block_text (concat (e ∷ es))))) (some_left e es)

remove_from-splice :
    (content : String) (start end : ℕ) (entries : List String)
    → remove_from content start end entries
      ≡ splice start end (middle_of entries) (splitlines_keepends content)
unfolding remove_from rewrite_block middle_of
remove_from-splice content start end [] = refl
remove_from-splice content start end (e ∷ es) = refl

-- `remove_block_member` raises what `find_block_members` raises, and nothing else. Otherwise, where
-- there is no block marker in the text, it stays as it is; where there is a block, it is written
-- anew with the entries of other tasks that were found in it, in their order, or is gone where there
-- are none, and every line before and behind the block is kept as it was.
pub remove_member_exact :
    (content slug : String)
    → Writes content
        (λ text. text ≡ content)
        (λ members text.
          (entries : List String) × AreOthers slug members entries × IsBlockOf entries text)
        (remove_block_member content slug)
unfolding remove_block_member
remove_member_exact content slug =
    bounds-Writes content _ _ (λ members. middle_of (remaining slug members))
      (λ members. (
        remaining slug members,
        remaining-AreOthers slug members,
        middle_of-IsBlockOf (remaining slug members),
      ))
      (remove_member_at content slug) content refl refl
      (λ start end.
        ap (λ f. find_block_members content >>= λ members. ok (f (remaining slug members)))
          (fun_ext (remove_from-splice content start end)))
      (block_bounds content) refl
