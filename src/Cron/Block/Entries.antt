-- ===== src/Cron/Block/Entries.antt =====
-- The entries of a block that is written anew, against those that were found in it
-- (src/taskcontrol/adapters/schedulers/cron/rendering.py).
use task_control.Cron.Block.{
  BlockMember, member_text, replace_member, has_member, rebuilt, remaining,
}
use task_control.Cron.Markers.{block_begin_marker, block_end_marker}
use task_control.Cron.Rendering.{generated_notice}
use task_control.Prelude.{
  String, ◌≡◌, ◌≢◌, ◌⊎◌, inl, inr, true, false, List, [], ◌∷◌, ◌++◌, All, arith, concat, str_eq,
  eq_iff, Bool-cases,
}
use task_control.Text.Lines.{join_lines}

-- A whole block: the begin marker, the notice, the entries and the end marker.
abbrev pub block_with : List String → String
block_with entries = concat (
    block_begin_marker
    ∷ "\n"
    ∷ generated_notice
    ∷ "\n"
    ∷ concat entries
    ∷ block_end_marker
    ∷ "\n"
    ∷ [])

-- Entries in order, where those of the task give way to the new one.
pub data AreReplaced (slug rendered : String) : List BlockMember → List String → Type 0 where
  none_found : AreReplaced slug rendered [] []
  own :
      {m : BlockMember} {ms : List BlockMember} {es : List String}
      → m.slug ≡ slug
      → AreReplaced slug rendered ms es
      → AreReplaced slug rendered (m ∷ ms) (rendered ∷ es)
  another :
      {m : BlockMember} {ms : List BlockMember} {es : List String}
      → m.slug ≢ slug
      → AreReplaced slug rendered ms es
      → AreReplaced slug rendered (m ∷ ms) (join_lines m.lines ∷ es)

-- The task has an entry.
abbrev pub Occurs : String → List BlockMember → Type 0
Occurs slug [] = ⊥
Occurs slug (m ∷ ms) = (m.slug ≡ slug) ⊎ Occurs slug ms

pub data IsUpserted (slug rendered : String) (members : List BlockMember)
    : List String → Type 0 where
  replaced :
      (es : List String)
      → Occurs slug members
      → AreReplaced slug rendered members es
      → IsUpserted slug rendered members es
  added :
      (es : List String)
      → All (λ m. m.slug ≢ slug) members
      → AreReplaced slug rendered members es
      → IsUpserted slug rendered members (es ++ rendered ∷ [])

-- Entries in order, less those of the task.
pub data AreOthers (slug : String) : List BlockMember → List String → Type 0 where
  nothing : AreOthers slug [] []
  dropped :
      {m : BlockMember} {ms : List BlockMember} {es : List String}
      → m.slug ≡ slug
      → AreOthers slug ms es
      → AreOthers slug (m ∷ ms) es
  kept :
      {m : BlockMember} {ms : List BlockMember} {es : List String}
      → m.slug ≢ slug
      → AreOthers slug ms es
      → AreOthers slug (m ∷ ms) (join_lines m.lines ∷ es)

-- What stands for these entries: a block, or nothing where there are none.
pub data IsBlockOf : List String → String → Type 0 where
  none_left : IsBlockOf [] ""
  some_left : (e : String) (es : List String) → IsBlockOf (e ∷ es) (block_with (e ∷ es))

differ : (a b : String) → str_eq a b ≡ false → a ≢ b
differ a b h = λ e. absurd (cc (h, (eq_iff a b).1 e))

replace_member-AreReplaced :
    (slug rendered : String) (members : List BlockMember)
    → AreReplaced slug rendered members (replace_member slug rendered members)
unfolding replace_member member_text
replace_member-AreReplaced slug rendered [] = none_found
replace_member-AreReplaced slug rendered (m ∷ ms) =
    let rest = replace_member-AreReplaced slug rendered ms in
    elim (Bool-cases (str_eq m.slug slug)) [
      | inl same ↦ rw same (own ((eq_iff m.slug slug).0 same) rest)
      | inr other ↦ rw other (another (differ m.slug slug other) rest)
    ]

has_member-Occurs :
    (slug : String) (members : List BlockMember)
    → has_member slug members ≡ true
    → Occurs slug members
unfolding has_member
has_member-Occurs slug [] h = cc
has_member-Occurs slug (m ∷ ms) h = elim (Bool-cases (str_eq m.slug slug)) [
  | inl same ↦ inl ((eq_iff m.slug slug).0 same)
  | inr other ↦ inr (has_member-Occurs slug ms (ground (arith, h, other)))
]

has_member_none :
    (slug : String) (members : List BlockMember)
    → has_member slug members ≡ false
    → All (λ m. m.slug ≢ slug) members
unfolding has_member
has_member_none slug [] h = tt
has_member_none slug (m ∷ ms) h =
    (differ m.slug slug (ground (arith, h)), has_member_none slug ms (ground (arith, h)))

pub rebuilt-IsUpserted :
    (slug rendered : String) (members : List BlockMember)
    → IsUpserted slug rendered members (rebuilt slug rendered members)
unfolding rebuilt
rebuilt-IsUpserted slug rendered members =
    let es = replace_member slug rendered members in
    let r = replace_member-AreReplaced slug rendered members in
    elim (Bool-cases (has_member slug members)) [
      | inl found ↦ rw found (replaced es (has_member-Occurs slug members found) r)
      | inr missing ↦ rw missing (added es (has_member_none slug members missing) r)
    ]

pub remaining-AreOthers :
    (slug : String) (members : List BlockMember) → AreOthers slug members (remaining slug members)
unfolding remaining member_text
remaining-AreOthers slug [] = nothing
remaining-AreOthers slug (m ∷ ms) =
    let rest = remaining-AreOthers slug ms in
    elim (Bool-cases (str_eq m.slug slug)) [
      | inl same ↦ rw same (dropped ((eq_iff m.slug slug).0 same) rest)
      | inr other ↦ rw other (kept (differ m.slug slug other) rest)
    ]
