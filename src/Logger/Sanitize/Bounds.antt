-- ===== src/Logger/Sanitize/Bounds.antt =====
-- logger/sanitize.go: what a rendered field can hold, and how long it is.
use Prim.Native.Nat.{◌/◌, ◌%◌}
use go_lib_my_carrier.Base.{
  ℕ, zero, suc, ◌+◌, ◌-◌, ◌≤◌, ◌<◌, ◌≡◌, refl, sym, ap, ◌∙◌, ◌⊎◌, inl, inr, Bool, true, false, ◌&&◌,
  not, List, [], ◌∷◌, ◌++◌, map, all, length, length-append, append_assoc, append-nil, codes,
  Bool-cases, arith, leb, ltb, nat_eq, is_empty,
}
use go_lib_my_carrier.Logger.Sanitize.{
  Piece, hex_digit, byte_escape, rune_escape, escape_rune, decimal_from, truncation_marker,
  or_itself, piece_text, render, needs_sanitizing, plain_code, sanitize_field, max_field_value_len,
}

-- A code point that no terminal acts on and that breaks no line.
abbrev pub is_printable : ℕ → Bool
is_printable c =
    leb 32 c
    && not (nat_eq c 127)
    && not (leb 128 c && leb c 159)
    && not (nat_eq c 0x2028)
    && not (nat_eq c 0x2029)

hex_digit-printable : (n : ℕ) → n < 16 → is_printable (hex_digit n) ≡ true
unfolding hex_digit
hex_digit-printable n h = ground arith

byte_escape-printable : (n : ℕ) → all is_printable (byte_escape n) ≡ true
unfolding byte_escape
byte_escape-printable n =
    rw (hex_digit-printable (n / 16 % 16) (omega arith), hex_digit-printable (n % 16) (omega arith))
      refl

rune_escape-printable : (n : ℕ) → all is_printable (rune_escape n) ≡ true
unfolding rune_escape
rune_escape-printable n =
    rw
      (
        hex_digit-printable (n / 4096 % 16) (omega arith),
        hex_digit-printable (n / 256 % 16) (omega arith),
        hex_digit-printable (n / 16 % 16) (omega arith),
        hex_digit-printable (n % 16) (omega arith),
      )
      refl

escape_rune-printable : (r : ℕ) → all is_printable (escape_rune r) ≡ true
unfolding escape_rune
escape_rune-printable r = ground (arith, byte_escape-printable r, rune_escape-printable r)

byte_escape-ne : (n : ℕ) → is_empty (byte_escape n) ≡ false
unfolding byte_escape
byte_escape-ne n = refl

rune_escape-ne : (n : ℕ) → is_empty (rune_escape n) ≡ false
unfolding rune_escape
rune_escape-ne n = refl

-- A rune that is not escaped is printable.
plain-printable : (r : ℕ) → is_empty (escape_rune r) ≡ true → is_printable r ≡ true
unfolding escape_rune
plain-printable r h = ground (arith, byte_escape-ne r, rune_escape-ne r)

all-append :
    {A : Type 0} (p : A → Bool) (xs ys : List A)
    → all p xs ≡ true
    → all p ys ≡ true
    → all p (xs ++ ys) ≡ true
all-append p [] ys h k = k
all-append p (x ∷ xs) ys h k = ground (arith, all-append p xs ys)

piece_text-printable : (p : Piece) → all is_printable (piece_text p) ≡ true
unfolding piece_text
piece_text-printable (Piece.bad_byte b) = byte_escape-printable b
piece_text-printable (Piece.rune r) =
    or_itself-printable r (escape_rune r) (escape_rune-printable r) (plain-printable r)
  where
    or_itself-printable :
        (r : ℕ) (text : List ℕ)
        → all is_printable text ≡ true
        → (is_empty text ≡ true → is_printable r ≡ true)
        → all is_printable (or_itself r text) ≡ true
    or_itself-printable r [] h k = rw (k refl) refl
    or_itself-printable r (c ∷ cs) h k = h

decimal_from-printable :
    (fuel n : ℕ) (digits : List ℕ)
    → all is_printable digits ≡ true
    → all is_printable (decimal_from fuel n digits) ≡ true
unfolding decimal_from
decimal_from-printable zero n digits h = h
decimal_from-printable (suc fuel) n digits h =
    let digit : is_printable (b'0' + n % 10) ≡ true = digit-printable (n % 10) (omega arith) in
    let longer : all is_printable ((b'0' + n % 10) ∷ digits) ≡ true = rw (digit, h) refl in
    elim (Bool-cases (ltb n 10)) [
      | inl last ↦ rw last longer
      | inr more ↦ rw more (decimal_from-printable fuel (n / 10) ((b'0' + n % 10) ∷ digits) longer)
    ]
  where
    digit-printable : (n : ℕ) → n < 10 → is_printable (b'0' + n) ≡ true
    digit-printable n h = ground arith

truncation_marker-printable :
    (shown total : ℕ) → all is_printable (truncation_marker shown total) ≡ true
unfolding truncation_marker
truncation_marker-printable shown total =
    let all_of = decimal_from (suc total) total [] ++ codes " runes shown)" in
    let of_all = codes " of " ++ all_of in
    all-append is_printable (codes "\\…(truncated, ") (decimal_from (suc shown) shown [] ++ of_all)
      refl
      (all-append is_printable (decimal_from (suc shown) shown []) of_all
        (decimal_from-printable (suc shown) shown [] refl)
        (all-append is_printable (codes " of ") all_of refl (
          all-append is_printable (decimal_from (suc total) total []) (codes " runes shown)")
            (decimal_from-printable (suc total) total [] refl) refl)))

render-printable :
    (total written shown : ℕ) (ps : List Piece)
    → all is_printable (render total written shown ps) ≡ true
unfolding render
render-printable total written shown [] = refl
render-printable total written shown (p ∷ ps) =
    elim (Bool-cases (leb max_field_value_len written)) [
      | inl full ↦ rw full (truncation_marker-printable shown total)
      | inr room ↦ rw room (
          all-append is_printable (piece_text p)
            (render total (written + length (piece_text p)) (shown + 1) ps) (piece_text-printable p)
            (render-printable total (written + length (piece_text p)) (shown + 1) ps))
    ]

-- A value that needs no sanitizing.
plain-All :
    (runes : ℕ) (ps : List Piece)
    → needs_sanitizing runes ps ≡ false
    → all is_printable (map plain_code ps) ≡ true
unfolding needs_sanitizing
plain-All runes [] h = refl
plain-All runes (Piece.bad_byte b ∷ ps) h = ground arith
plain-All runes (Piece.rune r ∷ ps) h = ground (arith, plain-All (runes + 1) ps, plain-printable r)

-- No field that a caller passes, valid UTF-8 or not, is rendered with a control character, a line
-- break or a line or paragraph separator.
pub sanitize_field-printable : (s : List Piece) → all is_printable (sanitize_field s) ≡ true
unfolding sanitize_field
sanitize_field-printable s = elim (Bool-cases (needs_sanitizing 0 s)) [
  | inl needs ↦ rw needs (render-printable (length s) 0 0 s)
  | inr plain ↦ rw plain (plain-All 0 s plain)
]

-- The longest escape has six code points.
escape_rune-length : (r : ℕ) → length (escape_rune r) ≤ 6
unfolding escape_rune byte_escape rune_escape
escape_rune-length r = ground arith

piece_text-length : (p : Piece) → length (piece_text p) ≤ 6
unfolding piece_text byte_escape
piece_text-length (Piece.bad_byte b) = omega arith
piece_text-length (Piece.rune r) = or_itself-length r (escape_rune r) (escape_rune-length r)
  where
    or_itself-length : (r : ℕ) (text : List ℕ) → length text ≤ 6 → length (or_itself r text) ≤ 6
    or_itself-length r [] h = omega arith
    or_itself-length r (c ∷ cs) h = h

-- A rendering: a body of bounded length, and then nothing or the marker.
abbrev pub Rendered : ℕ → ℕ → List ℕ → Type 0
Rendered bound total text =
    (body : List ℕ) × (rest : List ℕ) × (text ≡ body ++ rest)
    × (length body ≤ bound)
    × ((rest ≡ []) ⊎ ((shown : ℕ) × (rest ≡ truncation_marker shown total)))

render-Rendered :
    (total written shown : ℕ) (ps : List Piece) (bound : ℕ)
    → written + bound ≡ 1029
    → Rendered bound total (render total written shown ps)
unfolding render
render-Rendered total written shown [] bound h = ([], [], refl, omega arith, inl refl)
render-Rendered total written shown (p ∷ ps) bound h =
    elim (Bool-cases (leb max_field_value_len written)) [
      | inl full ↦ rw full ([], _, refl, omega arith, inr (shown, refl))
      | inr room ↦
          let short = piece_text-length p in
          let below : written < 1024 = ground (arith, room) in
          let (body, rest, e, l, r) =
            render-Rendered total (written + length (piece_text p)) (shown + 1) ps
              (bound - length (piece_text p)) (omega arith) in
          rw room (
            piece_text p ++ body,
            rest,
            ap (λ text. piece_text p ++ text) e ∙ sym (append_assoc (piece_text p) body rest),
            omega (arith, length-append (piece_text p) body),
            r,
          )
    ]

plain-length :
    (runes : ℕ) (ps : List Piece)
    → runes ≤ 1024
    → needs_sanitizing runes ps ≡ false
    → runes + length (map plain_code ps) ≤ 1024
unfolding needs_sanitizing
plain-length runes [] k h = omega arith
plain-length runes (p ∷ ps) k h = ground (arith, plain-length (runes + 1) ps)

-- A field is rendered with at most 1029 runes, five over the cap, and behind them nothing or the
-- marker, which says how many of the runes or bytes of the field there are.
pub sanitize_field-Rendered : (s : List Piece) → Rendered 1029 (length s) (sanitize_field s)
unfolding sanitize_field
sanitize_field-Rendered s = elim (Bool-cases (needs_sanitizing 0 s)) [
  | inl needs ↦ rw needs (render-Rendered (length s) 0 0 s 1029 refl)
  | inr plain ↦ rw plain (
    map plain_code s,
    [],
    sym (append-nil (map plain_code s)),
    omega (arith, plain-length 0 s (omega arith) plain),
    inl refl,
  )
]
