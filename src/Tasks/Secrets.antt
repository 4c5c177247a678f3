-- ===== src/Tasks/Secrets.antt =====
-- `_looks_like_an_inline_secret` (src/taskcontrol/domain/tasks/revision.py). `str.lower` is written
-- out for the letters A to Z; other letters are left as they are.
use Prim.Native.Char.{code}
use Prim.Native.String.{String}
use task_control.Prelude.{
  ℕ, ◌+◌, Bool, true, false, ◌&&◌, none, some, List, [], ◌∷◌, leb, ◌==◌, any, len, if◌then◌else◌,
}
use task_control.Runtime.World.{EnvironmentBinding}

-- the code of the letter in lower case
unfoldable pub lower_code : ℕ → ℕ
lower_code c = if leb 65 c && leb c 90 then c + 32 else c

-- whether `text.lower()` begins with `marker`, a text in lower case
unfoldable pub lower_starts_with : String → String → Bool
unfolding lower_code
lower_starts_with String.[] text = true
lower_starts_with (String.◌∷◌ m marker) String.[] = false
lower_starts_with (String.◌∷◌ m marker) (String.◌∷◌ c text) =
    let rest = lower_starts_with marker text in lower_code (code c) == code m && rest

-- `marker in text.lower()`
unfoldable pub lower_contains : String → String → Bool
unfolding lower_starts_with
lower_contains marker String.[] = lower_starts_with marker ""
lower_contains marker (String.◌∷◌ c text) =
    let rest = lower_contains marker text in
    if lower_starts_with marker (String.◌∷◌ c text) then true else rest

abbrev pub secret_like_names : List String
secret_like_names =
    "password" ∷ "passwd" ∷ "secret" ∷ "token" ∷ "api_key" ∷ "apikey" ∷ "credential" ∷ []

abbrev pub min_secret_like_value_length : ℕ
min_secret_like_value_length = 8

unfoldable pub looks_like_an_inline_secret : EnvironmentBinding → Bool
unfolding lower_contains
looks_like_an_inline_secret b =
    any (λ marker. lower_contains marker b.name) secret_like_names
    && (elim b.value [ none ↦ false | some v ↦ leb min_secret_like_value_length (len v) ])
