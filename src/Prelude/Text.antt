-- ===== src/Prelude/Text.antt =====
-- Python's `str` as the native text: `len`, `str.strip`, f-strings, `str.partition`, `str(int)`.
use Prim.Native.Nat.{ℕ, zero, suc, ◌/◌, ◌%◌}
use Prim.Native.Char.{code}
use Prim.Native.String.{String}
use mathlib.Core.Bool.{Bool, true, false, ◌&&◌, ◌||◌}
use mathlib.Core.Path.{◌≡◌, refl, ap}
use mathlib.Core.List.{List, [], ◌∷◌}
use text.Mathlib.Text.{◌==◌ as same_text}
pub use text.Mathlib.TextEquality.{eq_iff}
pub use text.Mathlib.TextPositions.{eq_refl}
use task_control.Prelude.Tests.{◌==◌, leb, ltb, if◌then◌else◌}

abbrev pub str_eq : String → String → Bool
str_eq a b = same_text a b

-- `s + t`, which computes by the first text's characters
infixr 65 ◌<>◌
abbrev pub ◌<>◌ : String → String → String
String.[] <> t = t
(String.◌∷◌ c s) <> t = String.◌∷◌ c (s <> t)

pub <>-empty : (s : String) → s <> "" ≡ s
<>-empty String.[] = refl
<>-empty (String.◌∷◌ c s) = ap (λ t. String.◌∷◌ c t) (<>-empty s)

pub <>_assoc : (s t u : String) → (s <> t) <> u ≡ s <> t <> u
<>_assoc String.[] t u = refl
<>_assoc (String.◌∷◌ c s) t u = ap (λ v. String.◌∷◌ c v) (<>_assoc s t u)

-- `len(s)`
unfoldable pub len : String → ℕ
len String.[] = 0
len (String.◌∷◌ c s) = suc (len s)

-- `str.isspace` of one character, as `str.strip` and `str.split` use it
unfoldable pub is_space : ℕ → Bool
is_space c =
    (leb 9 c && leb c 13)
    || (leb 28 c && leb c 32)
    || c == 0x85
    || c == 0xa0
    || c == 0x1680
    || (leb 0x2000 c && leb c 0x200a)
    || c == 0x2028
    || c == 0x2029
    || c == 0x202f
    || c == 0x205f
    || c == 0x3000

-- `not s.strip()`: the text is empty or all white space
unfoldable pub is_blank : String → Bool
unfolding is_space
is_blank String.[] = true
is_blank (String.◌∷◌ c s) = is_space (code c) && is_blank s

-- `s.lstrip()` and `s.rstrip()`
strip_start : String → String
unfolding is_space
strip_start String.[] = ""
strip_start (String.◌∷◌ c s) = if is_space (code c) then strip_start s else String.◌∷◌ c s

strip_end : String → String
unfolding is_blank
strip_end String.[] = ""
strip_end (String.◌∷◌ c s) = if is_blank (String.◌∷◌ c s) then "" else String.◌∷◌ c (strip_end s)

-- `s.strip()`
unfoldable pub strip : String → String
unfolding strip_start strip_end
strip s = strip_end (strip_start s)

-- `"".join(parts)`, which is also what an f-string does with its parts
unfoldable pub concat : List String → String
concat [] = ""
concat (s ∷ ss) = s <> concat ss

-- the two outer parts of `s.partition(sep)`, for a separator of one character: what stands
-- before it, whether it was found, and what stands behind it
unfoldable pub partition : ℕ → String → String × Bool × String
partition sep String.[] = ("", false, "")
partition sep (String.◌∷◌ c s) =
    let (before, found, after) = partition sep s in
    if code c == sep then ("", true, s) else (String.◌∷◌ c before, found, after)

digit : ℕ → String
digit zero = "0"
digit (suc zero) = "1"
digit (suc (suc zero)) = "2"
digit (suc (suc (suc zero))) = "3"
digit (suc (suc (suc (suc zero)))) = "4"
digit (suc (suc (suc (suc (suc zero))))) = "5"
digit (suc (suc (suc (suc (suc (suc zero)))))) = "6"
digit (suc (suc (suc (suc (suc (suc (suc zero))))))) = "7"
digit (suc (suc (suc (suc (suc (suc (suc (suc zero)))))))) = "8"
digit _ = "9"

-- the decimal digits of a number below 10 ^ fuel
digits : ℕ → ℕ → String → String
digits zero n acc = acc
digits (suc fuel) n acc =
    let rest = digits fuel (n / 10) (digit (n % 10) <> acc) in
    if ltb n 10 then digit n <> acc else rest

-- `str(n)` of a number that is not negative; a number has no more digits than it counts, and one
-- for zero
unfoldable pub show : ℕ → String
unfolding digit digits
show n = digits (suc n) n ""
