-- ===== src/Cron/Markers/Reading.antt =====
-- The patterns read back the marker lines that the adapter writes.
use task_control.Cron.Markers.{starts_with_hash, match_begin, match_end, match_member}
use task_control.Prelude.{String, false, ◌≡◌, refl, some, none, List, [], ◌∷◌, ◌<>◌, arith}
use task_control.Text.Matching.{IsToken, match-token, match-token_space}
use task_control.Text.Patterns.{Item, word, spaces, some_space, token, match, after_rest_of_token}

-- A line that starts with another character is no marker.
pub match_begin_other : (s : String) → starts_with_hash s ≡ false → match_begin s ≡ none
unfolding match_begin starts_with_hash
match_begin_other String.[] h = refl
match_begin_other (String.◌∷◌ c s) h = ground arith

pub match_end_other : (s : String) → starts_with_hash s ≡ false → match_end s ≡ none
unfolding match_end starts_with_hash
match_end_other String.[] h = refl
match_end_other (String.◌∷◌ c s) h = ground arith

module _ (slug task_id digest : String) (hs : IsToken slug) (hi : IsToken task_id)
    (hd : IsToken digest) where
  -- the three groups of a marker, whatever stands behind the digest
  identity_groups :
      (items : List Item) (rest : String)
      → after_rest_of_token (match items) rest ≡ some ("" ∷ [])
      → match
          (token ∷ some_space ∷ word "id=" ∷ token ∷ some_space ∷ word "digest=" ∷ token ∷ items)
          (slug <> " id=" <> task_id <> " digest=" <> digest <> rest)
        ≡ some (slug ∷ task_id ∷ digest ∷ [])
  unfolding match
  identity_groups items rest ends =
      match-token_space (word "id=" ∷ token ∷ some_space ∷ word "digest=" ∷ token ∷ items)
        ("id=" <> task_id <> " digest=" <> digest <> rest) slug hs
        (match-token_space (word "digest=" ∷ token ∷ items) ("digest=" <> digest <> rest) task_id hi
          (match-token items rest digest hd ends))

  pub match_begin-begin_marker :
      match_begin
        ("# >>> taskcontrol task=" <> slug <> " id=" <> task_id <> " digest=" <> digest <> " >>>")
      ≡ some (record { slug = slug; task_id = task_id; digest = digest })
  unfolding match_begin after_rest_of_token
  match_begin-begin_marker =
      ground (arith, identity_groups (spaces ∷ word ">>>" ∷ spaces ∷ []) " >>>" refl)

  pub match_member-member_comment :
      match_member
        ("# taskcontrol task=" <> slug <> " id=" <> task_id <> " digest=" <> digest <> "")
      ≡ some (record { slug = slug; task_id = task_id; digest = digest })
  unfolding match_member after_rest_of_token
  match_member-member_comment = ground (arith, identity_groups (spaces ∷ []) "" refl)

module _ (slug : String) where
  pub match_begin-end_marker : match_begin ("# <<< taskcontrol task=" <> slug <> " <<<") ≡ none
  unfolding match_begin
  match_begin-end_marker = refl

  pub match_end-end_marker :
      IsToken slug → match_end ("# <<< taskcontrol task=" <> slug <> " <<<") ≡ some slug
  unfolding match_end after_rest_of_token
  match_end-end_marker h =
      ground (arith, match-token (spaces ∷ word "<<<" ∷ spaces ∷ []) " <<<" slug h refl)
