-- ===== src/Logger/Sanitize.antt =====
-- logger/sanitize.go: the escaping of a field. A Go string is the list of what
-- `utf8.DecodeRuneInString` gives for it: runes, and bytes that are no UTF-8. What is rendered is a
-- list of code points.
pub mod Bounds
pub mod Faithful
use Prim.Native.Nat.{◌/◌, ◌%◌}
use go_lib_my_carrier.Base.{
  ℕ, zero, suc, ◌+◌, ◌-◌, Bool, true, false, ◌&&◌, ◌||◌, not, String, List, [], ◌∷◌, ◌++◌, map, any,
  is_empty, length, codes, leb, ltb, nat_eq, if◌then◌else◌,
}

pub data Piece : Type 0 where
  rune : ℕ → Piece
  bad_byte : ℕ → Piece

abbrev pub max_field_value_len : ℕ
max_field_value_len = 1024

abbrev pub backslash : ℕ
backslash = 92

abbrev pub quote : ℕ
quote = 34

-- A digit of `%x`.
unfoldable pub hex_digit : ℕ → ℕ
hex_digit n = if ltb n 10 then b'0' + n else b'a' + (n - 10)

-- `\x%02x` of a number below 256.
unfoldable pub byte_escape : ℕ → List ℕ
unfolding hex_digit
byte_escape n = backslash ∷ b'x' ∷ hex_digit (n / 16 % 16) ∷ hex_digit (n % 16) ∷ []

-- `\u%04x` of a number below 65536.
unfoldable pub rune_escape : ℕ → List ℕ
unfolding hex_digit
rune_escape n =
    backslash
    ∷ b'u'
    ∷ hex_digit (n / 4096 % 16)
    ∷ hex_digit (n / 256 % 16)
    ∷ hex_digit (n / 16 % 16)
    ∷ hex_digit (n % 16)
    ∷ []

-- `escapeRune`: empty for a rune that stands for itself.
unfoldable pub escape_rune : ℕ → List ℕ
unfolding byte_escape rune_escape
escape_rune r =
    if nat_eq r backslash
    then backslash ∷ backslash ∷ []
    else if nat_eq r quote
    then backslash ∷ quote ∷ []
    else if nat_eq r 10
    then backslash ∷ b'n' ∷ []
    else if nat_eq r 13
    then backslash ∷ b'r' ∷ []
    else if nat_eq r 9
    then backslash ∷ b't' ∷ []
    else if leb r 0x1f || nat_eq r 0x7f
    then byte_escape r
    else if leb 0x80 r && leb r 0x9f
    then rune_escape r
    else if nat_eq r 0x2028 || nat_eq r 0x2029
    then rune_escape r
    else []

-- The digits of `%d`; a number has fewer of them than its successor.
unfoldable pub decimal_from : ℕ → ℕ → List ℕ → List ℕ
decimal_from zero n digits = digits
decimal_from (suc fuel) n digits =
    let rest = decimal_from fuel (n / 10) ((b'0' + n % 10) ∷ digits) in
    if ltb n 10 then (b'0' + n % 10) ∷ digits else rest

abbrev decimal : ℕ → List ℕ
decimal n = decimal_from (suc n) n []

-- `truncationMarkerFormat`.
unfoldable pub truncation_marker : ℕ → ℕ → List ℕ
unfolding decimal_from
truncation_marker shown total =
    codes "\\…(truncated, "
    ++ (decimal shown ++ (codes " of " ++ (decimal total ++ codes " runes shown)")))

abbrev pub or_itself : ℕ → List ℕ → List ℕ
or_itself r [] = r ∷ []
or_itself r (c ∷ cs) = c ∷ cs

-- What one turn of the loop writes: an escape, or the rune itself.
unfoldable pub piece_text : Piece → List ℕ
unfolding byte_escape escape_rune
piece_text (bad_byte b) = byte_escape b
piece_text (rune r) = or_itself r (escape_rune r)

-- The loop of `sanitizeField`. An escape is ASCII, so its bytes are as many as its runes.
unfoldable pub render : ℕ → ℕ → ℕ → List Piece → List ℕ
unfolding truncation_marker piece_text
render total written shown [] = []
render total written shown (p ∷ ps) =
    let rest = render total (written + length (piece_text p)) (shown + 1) ps in
    if leb max_field_value_len written then truncation_marker shown total else piece_text p ++ rest

abbrev pub needs_escape : Piece → Bool
needs_escape (bad_byte b) = true
needs_escape (rune r) = not (is_empty (escape_rune r))

-- `fieldNeedsSanitizing`, with the runes counted before.
unfoldable pub needs_sanitizing : ℕ → List Piece → Bool
unfolding escape_rune
needs_sanitizing runes [] = false
needs_sanitizing runes (p ∷ ps) =
    let rest = needs_sanitizing (runes + 1) ps in
    if ltb max_field_value_len (runes + 1) then true else if needs_escape p then true else rest

-- The code point that a piece without an escape is written as.
abbrev pub plain_code : Piece → ℕ
plain_code (rune r) = r
plain_code (bad_byte b) = b

-- `sanitizeField`.
unfoldable pub sanitize_field : List Piece → List ℕ
unfolding render needs_sanitizing
sanitize_field s = if not (needs_sanitizing 0 s) then map plain_code s else render (length s) 0 0 s

abbrev is_structure : ℕ → Bool
is_structure c = nat_eq c b',' || nat_eq c b'=' || nat_eq c quote

-- `renderField`.
unfoldable pub render_field : List Piece → List ℕ
unfolding sanitize_field
render_field s =
    let rendered = sanitize_field s in
    if not (any is_structure rendered) then rendered else quote ∷ (rendered ++ quote ∷ [])
