-- ===== src/LogStream/Examples.antt =====
-- The log stream's theorems at concrete inputs.
use cppnetool.Prelude.{ℕ, ◌≡◌, refl, true, List, [], ◌∷◌, arith}
use cppnetool.Prelude.Int.{pos, negsuc}
use cppnetool.LogStream.{
  convert, emit, reverse_onto, convert_hex, emit_hex, new, Piece, text, flag, integer, pointer,
  put_all,
}
use cppnetool.LogStream.Decimal.{parse, parse-convert}
use cppnetool.LogStream.Bounds.{HasRoom, Chosen, put_all_lem}

minus_120 : convert (negsuc 119) ≡ 45 ∷ 49 ∷ 50 ∷ 48 ∷ []
unfolding convert emit reverse_onto
minus_120 = refl

hex_2f : convert_hex 47 ≡ 50 ∷ 70 ∷ []
unfolding convert_hex emit_hex reverse_onto
hex_2f = refl

parse-convert_example : parse (convert (negsuc 119)) ≡ negsuc 119
parse-convert_example = parse-convert (negsuc 119) (omega arith)

abbrev pieces : List Piece
pieces = text (102 ∷ 100 ∷ []) ∷ integer (pos 7) ∷ flag true ∷ pointer 47 ∷ []

put_all_lem_example :
    HasRoom (put_all pieces new)
    × ((s : List ℕ) × Chosen pieces s × ((put_all pieces new).written ≡ s))
unfolding new
put_all_lem_example = put_all_lem pieces new (omega arith)
