-- ===== src/Logger/Sanitize/Faithful.antt =====
-- logger/sanitize.go: that a rendering tells what the caller passed.
use Prim.Native.Nat.{◌/◌, ◌%◌}
use go_lib_my_carrier.Base.{
  ℕ, zero, suc, ◌+◌, ◌-◌, ◌*◌, ◌≤◌, ◌<◌, ◌≡◌, refl, ap, ◌∙◌, ◌⊎◌, inl, inr, Bool, true, false, ◌&&◌,
  ◌||◌, List, [], ◌∷◌, ◌++◌, map, All, length, length-append, Bool-cases, arith, leb, ltb, nat_eq,
  is_empty, if◌then◌else◌,
}
use go_lib_my_carrier.Logger.Sanitize.{
  Piece, hex_digit, byte_escape, rune_escape, escape_rune, or_itself, piece_text, render,
  needs_sanitizing, plain_code, sanitize_field, max_field_value_len, backslash,
}

-- How a reader of the log takes a rendering apart: outside an escape, behind its backslash, or
-- before the last of its digits, with their number less one, their value, and whether it is `\u`.
pub data Mode : Type 0 where
  plain escaped : Mode
  digits : ℕ → ℕ → Bool → Mode

unhex : ℕ → ℕ
unhex c = if ltb c b'a' then c - b'0' else c - b'a' + 10

-- A `\x` escape of an ASCII code is that rune, and another one a byte that is no UTF-8.
abbrev named : ℕ → Bool → Piece
named v true = Piece.rune v
named v false = if ltb v 128 then Piece.rune v else Piece.bad_byte v

pub reads : Mode → List ℕ → List Piece
unfolding unhex
reads mode [] = []
reads plain (c ∷ cs) =
    let escape = reads escaped cs in
    let rest = reads plain cs in if nat_eq c backslash then escape else Piece.rune c ∷ rest
reads escaped (c ∷ cs) =
    let byte = reads (digits 1 0 false) cs in
    let code = reads (digits 3 0 true) cs in
    let rest = reads plain cs in
    if nat_eq c b'x'
    then byte
    else if nat_eq c b'u'
    then code
    else if nat_eq c b'n'
    then Piece.rune 10 ∷ rest
    else if nat_eq c b'r'
    then Piece.rune 13 ∷ rest
    else if nat_eq c b't'
    then Piece.rune 9 ∷ rest
    else Piece.rune c ∷ rest
reads (digits zero v code) (c ∷ cs) = named (v * 16 + unhex c) code ∷ reads plain cs
reads (digits (suc k) v code) (c ∷ cs) = reads (digits k (v * 16 + unhex c) code) cs

unhex-hex_digit : (n : ℕ) → n < 16 → unhex (hex_digit n) ≡ n
unfolding unhex hex_digit
unhex-hex_digit n h = ground arith

reads-byte_escape :
    (n : ℕ) (rest : List ℕ)
    → n < 256
    → reads plain (byte_escape n ++ rest) ≡ named n false ∷ reads plain rest
unfolding reads byte_escape
reads-byte_escape n rest h =
    let value : (0 * 16 + n / 16 % 16) * 16 + n % 16 ≡ n = omega arith in
    rw (unhex-hex_digit (n / 16 % 16) (omega arith), unhex-hex_digit (n % 16) (omega arith), value)
      refl

reads-rune_escape :
    (n : ℕ) (rest : List ℕ)
    → n < 65536
    → reads plain (rune_escape n ++ rest) ≡ Piece.rune n ∷ reads plain rest
unfolding reads rune_escape
reads-rune_escape n rest h =
    let value : (((0 * 16 + n / 4096 % 16) * 16 + n / 256 % 16) * 16 + n / 16 % 16) * 16 + n % 16
        ≡ n =
      omega arith in
    rw
      (
        unhex-hex_digit (n / 4096 % 16) (omega arith),
        unhex-hex_digit (n / 256 % 16) (omega arith),
        unhex-hex_digit (n / 16 % 16) (omega arith),
        unhex-hex_digit (n % 16) (omega arith),
        value,
      )
      refl

-- What the decoder can give: a rune, or a byte that no UTF-8 text has alone.
abbrev pub IsDecoded : Piece → Type 0
IsDecoded (Piece.rune r) = Unit
IsDecoded (Piece.bad_byte b) = (128 ≤ b) × (b < 256)

-- The runes with an escape of their own letter.
abbrev has_letter : ℕ → Bool
has_letter r = nat_eq r 92 || nat_eq r 34 || nat_eq r 10 || nat_eq r 13 || nat_eq r 9

reads-letter :
    (r : ℕ) (rest : List ℕ)
    → has_letter r ≡ true
    → reads plain (or_itself r (escape_rune r) ++ rest) ≡ Piece.rune r ∷ reads plain rest
unfolding reads escape_rune
reads-letter r rest h =
    let which : (r ≡ 92) ⊎ ((r ≡ 34) ⊎ ((r ≡ 10) ⊎ ((r ≡ 13) ⊎ (r ≡ 9)))) = ground arith in
    elim which [
      | inl e ↦ rw e refl
      | inr (inl e) ↦ rw e refl
      | inr (inr (inl e)) ↦ rw e refl
      | inr (inr (inr (inl e))) ↦ rw e refl
      | inr (inr (inr (inr e))) ↦ rw e refl
    ]

-- The escape of another rune, by its two tests.
abbrev is_byte_rune : ℕ → Bool
is_byte_rune r = leb r 0x1f || nat_eq r 0x7f

abbrev is_code_rune : ℕ → Bool
is_code_rune r = (leb 0x80 r && leb r 0x9f) || (nat_eq r 0x2028 || nat_eq r 0x2029)

escape_rune-other :
    (r : ℕ)
    → has_letter r ≡ false
    → escape_rune r
      ≡ (if is_byte_rune r then byte_escape r else if is_code_rune r then rune_escape r else [])
unfolding escape_rune
escape_rune-other r h = ground arith

reads-other :
    (r : ℕ) (rest : List ℕ)
    → has_letter r ≡ false
    → reads plain (
        or_itself r
          (if is_byte_rune r then byte_escape r else if is_code_rune r then rune_escape r else [])
        ++ rest)
      ≡ Piece.rune r ∷ reads plain rest
unfolding reads byte_escape rune_escape
reads-other r rest h = elim (Bool-cases (is_byte_rune r)) [
  | inl byte ↦
      let low : ltb r 128 ≡ true = ground arith in
      rw byte (reads-byte_escape r rest (ground arith) ∙ rw low refl)
  | inr wide ↦ rw wide (elim (Bool-cases (is_code_rune r)) [
    | inl code ↦ rw code (reads-rune_escape r rest (ground arith))
    | inr itself ↦ let other : nat_eq r backslash ≡ false = ground arith in rw (itself, other) refl
  ])
]

reads-escape :
    (r : ℕ) (rest : List ℕ)
    → reads plain (or_itself r (escape_rune r) ++ rest) ≡ Piece.rune r ∷ reads plain rest
reads-escape r rest = elim (Bool-cases (has_letter r)) [
  | inl letter ↦ reads-letter r rest letter
  | inr other ↦ rw (escape_rune-other r other) (reads-other r rest other)
]

reads-piece_text :
    (p : Piece) (rest : List ℕ)
    → IsDecoded p
    → reads plain (piece_text p ++ rest) ≡ p ∷ reads plain rest
unfolding piece_text
reads-piece_text (Piece.rune r) rest h = reads-escape r rest
reads-piece_text (Piece.bad_byte b) rest h =
    reads-byte_escape b rest h.1 ∙ ap (λ p. p ∷ reads plain rest) (byte_named b h.0)
  where
    byte_named : (n : ℕ) → 128 ≤ n → named n false ≡ Piece.bad_byte n
    byte_named n h = ground arith

-- The whole rendering of a field, without a cut.
abbrev pub full_text : List Piece → List ℕ
full_text [] = []
full_text (p ∷ ps) = piece_text p ++ full_text ps

reads-full_text : (ps : List Piece) → All IsDecoded ps → reads plain (full_text ps) ≡ ps
unfolding reads
reads-full_text [] h = refl
reads-full_text (p ∷ ps) h =
    reads-piece_text p (full_text ps) h.0 ∙ ap (λ rest. p ∷ rest) (reads-full_text ps h.1)

-- Every piece is written with at least one code point.
piece_text-ne : (p : Piece) → 0 < length (piece_text p)
unfolding piece_text byte_escape
piece_text-ne (Piece.bad_byte b) = omega arith
piece_text-ne (Piece.rune r) = or_itself-ne r (escape_rune r)
  where
    or_itself-ne : (r : ℕ) (text : List ℕ) → 0 < length (or_itself r text)
    or_itself-ne r [] = omega arith
    or_itself-ne r (c ∷ cs) = omega arith

-- A rendering within the cap is not cut.
render-full_text :
    (total written shown : ℕ) (ps : List Piece)
    → written + length (full_text ps) ≤ 1024
    → render total written shown ps ≡ full_text ps
unfolding render
render-full_text total written shown [] h = refl
render-full_text total written shown (p ∷ ps) h =
    let some_text = piece_text-ne p in
    let parts = length-append (piece_text p) (full_text ps) in
    let room : leb max_field_value_len written ≡ false = ground arith in
    rw room (
      ap (λ rest. piece_text p ++ rest)
        (render-full_text total (written + length (piece_text p)) (shown + 1) ps (omega arith)))

plain-full_text :
    (runes : ℕ) (ps : List Piece)
    → needs_sanitizing runes ps ≡ false
    → map plain_code ps ≡ full_text ps
unfolding needs_sanitizing piece_text
plain-full_text runes [] h = refl
plain-full_text runes (Piece.bad_byte b ∷ ps) h = ground arith
plain-full_text runes (Piece.rune r ∷ ps) h =
    let rest : needs_sanitizing (runes + 1) ps ≡ false = ground arith in
    let bare : is_empty (escape_rune r) ≡ true = ground arith in
    rw (itself r (escape_rune r) bare) (ap (λ text. r ∷ text) (plain-full_text (runes + 1) ps rest))
  where
    itself : (r : ℕ) (text : List ℕ) → is_empty text ≡ true → or_itself r text ≡ r ∷ []
    itself r [] h = refl
    itself r (c ∷ cs) h = cc

sanitize_field-full_text :
    (s : List Piece) → length (full_text s) ≤ 1024 → sanitize_field s ≡ full_text s
unfolding sanitize_field
sanitize_field-full_text s h = elim (Bool-cases (needs_sanitizing 0 s)) [
  | inl needs ↦ rw needs (render-full_text (length s) 0 0 s (omega arith))
  | inr clean ↦ rw clean (plain-full_text 0 s clean)
]

-- A field whose rendering fits within the cap, valid UTF-8 or not, is read back from it rune by rune
-- and byte by byte: so no two such fields are rendered alike.
pub reads-sanitize_field :
    (s : List Piece)
    → All IsDecoded s
    → length (full_text s) ≤ 1024
    → reads plain (sanitize_field s) ≡ s
reads-sanitize_field s h k = rw (sanitize_field-full_text s k) (reads-full_text s h)
