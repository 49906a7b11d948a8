-- ===== src/Tests/Logger.antt =====
-- Runs of the theorems on a field that would forge a line of the log.
use go_lib_my_carrier.Base.{◌≡◌, true, List, [], ◌∷◌, all, arith}
use go_lib_my_carrier.Logger.Sanitize.{Piece, sanitize_field}
use go_lib_my_carrier.Logger.Sanitize.Bounds.{
  is_printable, Rendered, sanitize_field-printable, sanitize_field-Rendered,
}
use go_lib_my_carrier.Logger.Sanitize.Faithful.{reads, Mode, reads-sanitize_field}

-- a, a line feed, the byte 0xff, a backslash and U+2028
abbrev forged : List Piece
forged = Piece.rune 97 ∷ Piece.rune 10 ∷ Piece.bad_byte 255 ∷ Piece.rune 92 ∷ Piece.rune 0x2028 ∷ []

sanitize_field-printable_example : all is_printable (sanitize_field forged) ≡ true
sanitize_field-printable_example = sanitize_field-printable forged

sanitize_field-Rendered_example : Rendered 1029 5 (sanitize_field forged)
sanitize_field-Rendered_example = sanitize_field-Rendered forged

reads-sanitize_field_example : reads Mode.plain (sanitize_field forged) ≡ forged
unfolding go_lib_my_carrier.Logger.Sanitize.piece_text
reads-sanitize_field_example =
    reads-sanitize_field forged (tt, (tt, ((omega arith, omega arith), (tt, (tt, tt)))))
      (omega arith)
