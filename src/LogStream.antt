-- ===== src/LogStream.antt =====
-- cppnetool/base/LogStream.h and LogStream.cc: numbers as text, and the buffer of a log line. A
-- character is its ASCII code.
pub mod Decimal
pub mod Bounds
pub mod Width
pub mod Whole
mod Examples
use cppnetool.Prelude.{
  ℕ, zero, suc, ◌+◌, ◌-◌, ◌*◌, ◌/◌, ◌%◌, Bool, true, false, List, [], ◌∷◌, ◌++◌, ltb, leb, ◌==◌,
  if◌then◌else◌, length,
}
use cppnetool.Prelude.Int.{ℤ, pos, negsuc, is_negative}

-- `digits`: "9876543210123456789".
abbrev pub digits : List ℕ
digits =
    57 ∷ 56 ∷ 55 ∷ 54 ∷ 53 ∷ 52 ∷ 51 ∷ 50 ∷ 49 ∷ 48 ∷ 49 ∷ 50 ∷ 51 ∷ 52 ∷ 53 ∷ 54 ∷ 55 ∷ 56 ∷ 57
    ∷ []

-- `digitsHex`: "0123456789ABCDEF".
abbrev pub digits_hex : List ℕ
digits_hex = 48 ∷ 49 ∷ 50 ∷ 51 ∷ 52 ∷ 53 ∷ 54 ∷ 55 ∷ 56 ∷ 57 ∷ 65 ∷ 66 ∷ 67 ∷ 68 ∷ 69 ∷ 70 ∷ []

-- The character at a place of a table; none of the places that are used is behind its end.
abbrev pub char_at : List ℕ → ℕ → ℕ
char_at [] i = 0
char_at (c ∷ cs) zero = c
char_at (c ∷ cs) (suc i) = char_at cs i

-- The negative of a natural number.
abbrev pub negative : ℕ → ℤ
negative zero = pos zero
negative (suc n) = negsuc n

-- `i % 10` and `i / 10`, which round towards 0.
abbrev pub last_digit : ℤ → ℤ
last_digit (pos n) = pos (n % 10)
last_digit (negsuc n) = negative (suc n % 10)

abbrev pub tenth : ℤ → ℤ
tenth (pos n) = pos (n / 10)
tenth (negsuc n) = negative (suc n / 10)

-- `zero[lsd]`, where `zero` points at the place 9 of `digits`.
abbrev pub symbol : ℤ → ℕ
symbol (pos d) = char_at digits (9 + d)
symbol (negsuc d) = char_at digits (8 - d)

abbrev pub is_zero : ℤ → Bool
is_zero (pos n) = n == 0
is_zero (negsuc n) = false

abbrev pub minus : ℕ
minus = 45

-- The rounds of the loop of `convert`, of which `fuel` are enough for a number below 10 ^ fuel.
unfoldable pub emit : ℕ → ℤ → List ℕ
emit zero i = []
emit (suc fuel) i =
    let rest = emit fuel (tenth i) in
    symbol (last_digit i) ∷ (if is_zero (tenth i) then [] else rest)

unfoldable pub reverse_onto : List ℕ → List ℕ → List ℕ
reverse_onto [] acc = acc
reverse_onto (c ∷ cs) acc = reverse_onto cs (c ∷ acc)

-- No type that `convert` is used for has numbers of more than 20 digits.
abbrev pub max_digits : ℕ
max_digits = 20

unfoldable pub convert : ℤ → List ℕ
convert value =
    let sign = if is_negative value then minus ∷ [] else [] in
    reverse_onto (emit max_digits value ++ sign) []

unfoldable pub emit_hex : ℕ → ℕ → List ℕ
emit_hex zero i = []
emit_hex (suc fuel) i =
    let rest = emit_hex fuel (i / 16) in
    char_at digits_hex (i % 16) ∷ (if (i / 16) == 0 then [] else rest)

-- `uintptr_t` has 16 digits.
unfoldable pub convert_hex : ℕ → List ℕ
convert_hex value = reverse_onto (emit_hex 16 value) []

-- `FixedBuffer`: `written` is what stands between `data_` and `cur_`.
pub record FixedBuffer : Type 0 where
  pub size : ℕ
  pub written : List ℕ

abbrev pub small_buffer : ℕ
small_buffer = 4000

unfoldable pub new : FixedBuffer
new = record { size = small_buffer; written = [] }

abbrev pub avail : FixedBuffer → ℕ
avail b = b.size - length b.written

unfoldable pub append : List ℕ → FixedBuffer → FixedBuffer
append buf b = if ltb (length buf) (avail b) then record b { written = b.written ++ buf } else b

-- What is written at `current()`, and then `add`.
abbrev pub add : List ℕ → FixedBuffer → FixedBuffer
add buf b = record b { written = b.written ++ buf }

abbrev pub max_numeric_size : ℕ
max_numeric_size = 32

unfoldable pub format_integer : ℤ → FixedBuffer → FixedBuffer
format_integer v b = if leb max_numeric_size (avail b) then add (convert v) b else b

-- `operator<<(const void *)`
unfoldable pub format_pointer : ℕ → FixedBuffer → FixedBuffer
format_pointer v b = if leb max_numeric_size (avail b) then add (48 ∷ 120 ∷ convert_hex v) b else b

-- What a line is made of.
pub data Piece : Type 0 where
  text : List ℕ → Piece
  flag : Bool → Piece
  integer : ℤ → Piece
  pointer : ℕ → Piece

unfoldable pub put : Piece → FixedBuffer → FixedBuffer
put (text s) b = append s b
put (flag v) b = append ((if v then 49 else 48) ∷ []) b
put (integer v) b = format_integer v b
put (pointer v) b = format_pointer v b

unfoldable pub put_all : List Piece → FixedBuffer → FixedBuffer
put_all [] b = b
put_all (p ∷ ps) b = put_all ps (put p b)
