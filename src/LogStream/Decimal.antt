-- ===== src/LogStream/Decimal.antt =====
-- Integers as decimal text.
use native.Mathlib.Nat.{pow-suc}
use cppnetool.Prelude.{
  ℕ, zero, suc, ◌+◌, ◌-◌, ◌*◌, ◌/◌, ◌%◌, ◌^◌, ◌≤◌, ◌<◌, ◌≡◌, refl, ap, ◌∙◌, inl, inr, Bool, true,
  false, List, [], ◌∷◌, ◌++◌, ◌==◌, ◌&&◌, if◌then◌else◌, length, Bool-cases, arith, append-nil,
}
use cppnetool.Prelude.Int.{ℤ, pos, negsuc}
use cppnetool.LogStream.{
  char_at, negative, last_digit, tenth, symbol, is_zero, minus, emit, reverse_onto, max_digits,
  convert,
}

abbrev pub magnitude : ℤ → ℕ
magnitude (pos n) = n
magnitude (negsuc n) = suc n

magnitude-negative : (n : ℕ) → magnitude (negative n) ≡ n
magnitude-negative zero = refl
magnitude-negative (suc n) = refl

magnitude-last_digit : (i : ℤ) → magnitude (last_digit i) ≡ magnitude i % 10
magnitude-last_digit (pos n) = refl
magnitude-last_digit (negsuc n) = magnitude-negative (suc n % 10)

pub magnitude-tenth : (i : ℤ) → magnitude (tenth i) ≡ magnitude i / 10
magnitude-tenth (pos n) = refl
magnitude-tenth (negsuc n) = magnitude-negative (suc n / 10)

-- Whether the characters of a table count up from `a`, or down from it.
abbrev rises : List ℕ → ℕ → Bool
rises [] a = true
rises (c ∷ cs) a = (c == a) && rises cs (suc a)

abbrev falls : List ℕ → ℕ → Bool
falls [] a = true
falls (c ∷ cs) a = (c == a) && falls cs (a - 1)

char_at-rises : (cs : List ℕ) (a i : ℕ) → rises cs a ≡ true → i < length cs → char_at cs i ≡ a + i
char_at-rises [] a i r h = absurd (omega arith)
char_at-rises (c ∷ cs) a zero r h = ground (arith, r)
char_at-rises (c ∷ cs) a (suc i) r h =
    let rest : char_at cs i ≡ suc a + i =
      char_at-rises cs (suc a) i (ground (arith, r)) (omega (arith, h)) in
    omega (arith, rest)

char_at-falls :
    (cs : List ℕ) (a i : ℕ) → falls cs a ≡ true → i < length cs → i ≤ a → char_at cs i ≡ a - i
char_at-falls [] a i r h k = absurd (omega arith)
char_at-falls (c ∷ cs) a zero r h k = ground (arith, r)
char_at-falls (c ∷ cs) a (suc i) r h k =
    let rest : char_at cs i ≡ a - 1 - i =
      char_at-falls cs (a - 1) i (ground (arith, r)) (omega (arith, h)) (omega (arith, k)) in
    omega (arith, rest, k)

char_at-append : (cs ds : List ℕ) (i : ℕ) → char_at (cs ++ ds) (length cs + i) ≡ char_at ds i
char_at-append [] ds i = ap (char_at ds) (omega arith)
char_at-append (c ∷ cs) ds i =
    let shifted : suc (length cs) + i ≡ suc (length cs + i) = omega arith in
    ap (char_at (c ∷ cs ++ ds)) shifted ∙ char_at-append cs ds i

char_at-append_left : (cs ds : List ℕ) (i : ℕ) → i < length cs → char_at (cs ++ ds) i ≡ char_at cs i
char_at-append_left [] ds i h = absurd (omega arith)
char_at-append_left (c ∷ cs) ds zero h = refl
char_at-append_left (c ∷ cs) ds (suc i) h = char_at-append_left cs ds i (omega (arith, h))

abbrev left_digits : List ℕ
left_digits = 57 ∷ 56 ∷ 55 ∷ 54 ∷ 53 ∷ 52 ∷ 51 ∷ 50 ∷ 49 ∷ []

abbrev right_digits : List ℕ
right_digits = 48 ∷ 49 ∷ 50 ∷ 51 ∷ 52 ∷ 53 ∷ 54 ∷ 55 ∷ 56 ∷ 57 ∷ []

-- The table is read to the right for a digit and to the left for its negative.
symbol_digit : (d : ℤ) → magnitude d < 10 → symbol d ≡ 48 + magnitude d
symbol_digit (pos d) h =
    char_at-append left_digits right_digits d ∙ char_at-rises right_digits 48 d refl h
symbol_digit (negsuc d) h =
    let place : 57 - (8 - d) ≡ 48 + suc d = omega arith in
    char_at-append_left left_digits right_digits (8 - d) (omega arith)
    ∙ (char_at-falls left_digits 57 (8 - d) refl (omega arith) (omega arith) ∙ place)

-- The number that digits stand for, the last one first.
unfoldable pub value : List ℕ → ℕ
value [] = 0
value (c ∷ cs) = (c - 48) + 10 * value cs

pub is_zero_iff : (i : ℤ) → is_zero i ≡ (magnitude i == 0)
is_zero_iff (pos n) = refl
is_zero_iff (negsuc n) = ground arith

symbol-last_digit : (i : ℤ) → symbol (last_digit i) ≡ 48 + magnitude i % 10
symbol-last_digit i =
    symbol_digit (last_digit i) (omega (arith, magnitude-last_digit i))
    ∙ ap (λ m. 48 + m) (magnitude-last_digit i)

value-emit : (fuel : ℕ) (i : ℤ) → magnitude i < 10 ^ fuel → value (emit fuel i) ≡ magnitude i
unfolding value emit
value-emit zero i h = omega (arith, h)
value-emit (suc fuel) i h =
    let power : 10 ^ suc fuel ≡ 10 ^ fuel * 10 = pow-suc 10 fuel in
    let fewer : magnitude (tenth i) < 10 ^ fuel = omega (arith, magnitude-tenth i, power, h) in
    let rest : value (emit fuel (tenth i)) ≡ magnitude (tenth i) =
      value-emit fuel (tenth i) fewer in
    elim (Bool-cases (is_zero (tenth i))) [
      | inl last ↦
          let none : magnitude (tenth i) ≡ 0 = ground (arith, is_zero_iff (tenth i), last) in
          rw last (omega (arith, symbol-last_digit i, magnitude-tenth i, none))
      | inr more ↦ rw more (omega (arith, symbol-last_digit i, magnitude-tenth i, rest))
    ]

-- The number that digits stand for, the first one first, behind those that stand for `acc`.
unfoldable pub read_digits : ℕ → List ℕ → ℕ
read_digits acc [] = acc
read_digits acc (c ∷ cs) = read_digits (10 * acc + (c - 48)) cs

read_digits-reverse :
    (cs acc : List ℕ) → read_digits 0 (reverse_onto cs acc) ≡ read_digits (value cs) acc
unfolding read_digits reverse_onto value
read_digits-reverse [] acc = refl
read_digits-reverse (c ∷ cs) acc =
    let swapped : 10 * value cs + (c - 48) ≡ (c - 48) + 10 * value cs = omega arith in
    read_digits-reverse cs (c ∷ acc) ∙ ap (λ n. read_digits n acc) swapped

-- Characters that are not a sign.
abbrev pub AreDigits : List ℕ → Type 0
AreDigits [] = Unit {0}
AreDigits (c ∷ cs) = (48 ≤ c) × AreDigits cs

pub emit-AreDigits : (fuel : ℕ) (i : ℤ) → AreDigits (emit fuel i)
unfolding emit
emit-AreDigits zero i = tt
emit-AreDigits (suc fuel) i = elim (Bool-cases (is_zero (tenth i))) [
  | inl last ↦ rw last (omega (arith, symbol-last_digit i), tt)
  | inr more ↦ rw more (omega (arith, symbol-last_digit i), emit-AreDigits fuel (tenth i))
]

pub reverse_onto-AreDigits :
    (cs acc : List ℕ) → AreDigits cs → AreDigits acc → AreDigits (reverse_onto cs acc)
unfolding reverse_onto
reverse_onto-AreDigits [] acc h k = k
reverse_onto-AreDigits (c ∷ cs) acc (d, h) k = reverse_onto-AreDigits cs (c ∷ acc) h (d, k)

reverse_onto-append :
    (cs : List ℕ) (c : ℕ) (acc : List ℕ) → reverse_onto (cs ++ c ∷ []) acc ≡ c ∷ reverse_onto cs acc
unfolding reverse_onto
reverse_onto-append [] c acc = refl
reverse_onto-append (d ∷ cs) c acc = reverse_onto-append cs c (d ∷ acc)

-- The integer that a text stands for.
unfoldable pub parse : List ℕ → ℤ
parse [] = pos 0
parse (c ∷ cs) = if c == minus then negative (read_digits 0 cs) else pos (read_digits 0 (c ∷ cs))

parse-AreDigits : (cs : List ℕ) → AreDigits cs → parse cs ≡ pos (read_digits 0 cs)
unfolding parse read_digits
parse-AreDigits [] h = refl
parse-AreDigits (c ∷ cs) (d, h) =
    let no_sign : (c == minus) ≡ false = ground (arith, d) in rw no_sign refl

pub read_back :
    (v : ℤ)
    → magnitude v < 10 ^ max_digits
    → read_digits 0 (reverse_onto (emit max_digits v) []) ≡ magnitude v
unfolding read_digits
read_back v h = read_digits-reverse (emit max_digits v) [] ∙ value-emit max_digits v h

-- `convert` writes text that stands for its argument, whatever its sign, for every number of at most
-- twenty digits, so for every number of 64 bits.
pub parse-convert : (v : ℤ) → magnitude v < 10 ^ max_digits → parse (convert v) ≡ v
unfolding convert parse
parse-convert (pos n) h =
    let ds = emit max_digits (pos n) in
    rw (append-nil ds) (
      parse-AreDigits (reverse_onto ds [])
        (reverse_onto-AreDigits ds [] (emit-AreDigits max_digits (pos n)) tt)
      ∙ ap pos (read_back (pos n) h))
parse-convert (negsuc n) h =
    let ds = emit max_digits (negsuc n) in
    rw (reverse_onto-append ds minus []) (ap negative (read_back (negsuc n) h))
