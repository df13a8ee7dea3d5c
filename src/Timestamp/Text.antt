-- ===== src/Timestamp/Text.antt =====
-- `toString` and `toFormattedString` of Timestamp.cc.
use cppnetool.Prelude.{
  ℕ, zero, suc, ◌+◌, ◌-◌, ◌*◌, ◌/◌, ◌%◌, ◌^◌, ◌<◌, ◌≡◌, refl, List, [], ◌∷◌, ◌++◌, ◌==◌,
  if◌then◌else◌, length, take, replicate, arith, append-nil, length-append, take_all,
}
use cppnetool.Prelude.Int.{pos}
use cppnetool.LogStream.{convert, emit, max_digits}
use cppnetool.LogStream.Decimal.{
  AreDigits, emit-AreDigits, reverse_onto-AreDigits, read_back, read_digits,
}
use cppnetool.LogStream.Width.{convert-fits}
use cppnetool.Logging.{Tm, decimal, pad, stamp}
use cppnetool.Logging.Clock.{pad-length}
use cppnetool.Timestamp.{Timestamp, micro_seconds_per_second}

-- "%ld.%06ld" in 31 characters, the last of which is a zero.
unfoldable pub to_string : Timestamp → List ℕ
to_string t = take 30 (
    decimal (t / micro_seconds_per_second)
    ++ (46 ∷ pad 48 6 (decimal (t % micro_seconds_per_second))))

-- "%4d%02d%02d %02d:%02d:%02d.%06d" in 32 characters, with what `gmtime_r` gives for the seconds.
unfoldable pub to_formatted_string : (ℕ → Tm) → Timestamp → List ℕ
to_formatted_string gmtime t = take 31 (
    stamp (gmtime (t / micro_seconds_per_second))
    ++ (46 ∷ pad 48 6 (decimal (t % micro_seconds_per_second))))

abbrev until_dot : List ℕ → List ℕ
until_dot [] = []
until_dot (c ∷ cs) = let rest = until_dot cs in if c == 46 then [] else c ∷ rest

abbrev behind_dot : List ℕ → List ℕ
behind_dot [] = []
behind_dot (c ∷ cs) = let rest = behind_dot cs in if c == 46 then cs else rest

-- The time that a text stands for.
pub read_time : List ℕ → Timestamp
read_time s = read_digits 0 (until_dot s) * micro_seconds_per_second + read_digits 0 (behind_dot s)

until_dot-append : (xs ys : List ℕ) → AreDigits xs → until_dot (xs ++ (46 ∷ ys)) ≡ xs
until_dot-append [] ys h = refl
until_dot-append (x ∷ xs) ys (d, h) = ground (arith, d, until_dot-append xs ys h)

behind_dot-append : (xs ys : List ℕ) → AreDigits xs → behind_dot (xs ++ (46 ∷ ys)) ≡ ys
behind_dot-append [] ys h = refl
behind_dot-append (x ∷ xs) ys (d, h) = ground (arith, d, behind_dot-append xs ys h)

decimal-AreDigits : (n : ℕ) → AreDigits (decimal n)
unfolding convert
decimal-AreDigits n =
    rw (append-nil (emit max_digits (pos n)))
      (reverse_onto-AreDigits (emit max_digits (pos n)) [] (emit-AreDigits max_digits (pos n)) tt)

read_digits-decimal : (n : ℕ) → n < 10 ^ max_digits → read_digits 0 (decimal n) ≡ n
unfolding convert
read_digits-decimal n h = rw (append-nil (emit max_digits (pos n))) (read_back (pos n) h)

read_digits-zeros : (k : ℕ) (s : List ℕ) → read_digits 0 (replicate k 48 ++ s) ≡ read_digits 0 s
unfolding read_digits
read_digits-zeros zero s = refl
read_digits-zeros (suc k) s = read_digits-zeros k s

to_string_whole :
    (t : Timestamp)
    → t < 2 ^ 63
    → to_string t
      ≡ decimal (t / micro_seconds_per_second)
        ++ (46 ∷ pad 48 6 (decimal (t % micro_seconds_per_second)))
unfolding to_string
to_string_whole t h = take_all 30 _ (
    omega (
      arith,
      convert-fits 12 (t / micro_seconds_per_second) (omega (arith, h)),
      pad-length 48 5 (t % micro_seconds_per_second) (omega arith),
      length-append (decimal (t / micro_seconds_per_second))
          (46 ∷ pad 48 6 (decimal (t % micro_seconds_per_second))),
    ))

-- The text of every time below 2^63 microseconds stands for this time: it is not cut off, and seconds
-- and microseconds can be told apart.
pub read_time-to_string : (t : Timestamp) → t < 2 ^ 63 → read_time (to_string t) ≡ t
unfolding read_time
read_time-to_string t h =
    let s = t / micro_seconds_per_second in
    let m = t % micro_seconds_per_second in
    rw
      (
        to_string_whole t h,
        until_dot-append (decimal s) (pad 48 6 (decimal m)) (decimal-AreDigits s),
        behind_dot-append (decimal s) (pad 48 6 (decimal m)) (decimal-AreDigits s),
        read_digits-zeros (6 - length (decimal m)) (decimal m),
        read_digits-decimal s (omega (arith, h)),
        read_digits-decimal m (omega arith),
      )
      (omega arith)
