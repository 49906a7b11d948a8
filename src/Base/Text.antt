-- ===== src/Base/Text.antt =====
-- Texts: the equality test, concatenation, and the lower-case code points that Go compares.
use Prim.Native.Nat.{ℕ, ◌+◌}
use Prim.Native.Char.{code}
use Prim.Native.String.{String, ◌++◌, len, slice}
use mathlib.Core.Bool.{Bool, true, false, ◌&&◌}
use mathlib.Core.List.{List, [], ◌∷◌}
pub use text.Mathlib.Text.{◌==◌}
pub use text.Mathlib.TextEquality.{eq_iff}
pub use text.Mathlib.TextPositions.{eq_refl}
use go_lib_my_carrier.Base.Tests.{ltb, leb, nat_eq, if◌then◌else◌}

-- `a + b + …` of texts.
abbrev pub concat : List String → String
concat [] = ""
concat (s ∷ []) = s
concat (s ∷ t ∷ ts) = s ++ concat (t ∷ ts)

-- `strings.Join`.
abbrev pub join : String → List String → String
join sep [] = ""
join sep (s ∷ []) = s
join sep (s ∷ t ∷ ts) = s ++ (sep ++ join sep (t ∷ ts))

-- What `%v` prints for a slice of strings.
abbrev pub show_list : List String → String
show_list ts = "[" ++ (join " " ts ++ "]")

abbrev pub codes : String → List ℕ
codes String.[] = []
codes (String.◌∷◌ c s) = code c ∷ codes s

-- `unicode.ToLower` as far as a comparison with ASCII text sees it: the capitals of ASCII, and the
-- two other code points whose lower case is an ASCII letter (K, the Kelvin sign, and İ).
abbrev pub lower_code : ℕ → ℕ
lower_code c =
    if leb 65 c && leb c 90
    then c + 32
    else if nat_eq c 0x212a
    then 107
    else if nat_eq c 0x130
    then 105
    else c

abbrev pub lower_codes : String → List ℕ
lower_codes String.[] = []
lower_codes (String.◌∷◌ c s) = lower_code (code c) ∷ lower_codes s

abbrev pub codes_eq : List ℕ → List ℕ → Bool
codes_eq [] [] = true
codes_eq [] (y ∷ ys) = false
codes_eq (x ∷ xs) [] = false
codes_eq (x ∷ xs) (y ∷ ys) = nat_eq x y && codes_eq xs ys

-- `shortSHA`, which errors.go writes out once more: the first seven bytes of a commit.
abbrev pub short_sha : String → String
short_sha sha = if ltb 7 (len sha) then slice sha 0 7 else sha

-- `%q` of a text with no character that Go escapes.
abbrev pub quoted : String → String
quoted s = concat ("\"" ∷ s ∷ "\"" ∷ [])
