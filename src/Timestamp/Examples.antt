-- ===== src/Timestamp/Examples.antt =====
-- A time as text.
use cppnetool.Prelude.{◌≡◌, refl, [], ◌∷◌, arith}
use cppnetool.LogStream.{convert, emit, reverse_onto}
use cppnetool.Timestamp.Text.{to_string, read_time, read_time-to_string}

read_time-to_string_example : read_time (to_string 12000034) ≡ 12000034
read_time-to_string_example = read_time-to_string 12000034 (omega arith)

-- "12.000034"
to_string_text : to_string 12000034 ≡ 49 ∷ 50 ∷ 46 ∷ 48 ∷ 48 ∷ 48 ∷ 48 ∷ 51 ∷ 52 ∷ []
unfolding to_string convert emit reverse_onto
to_string_text = refl
