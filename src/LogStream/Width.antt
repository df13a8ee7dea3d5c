-- ===== src/LogStream/Width.antt =====
-- How many digits `convert` writes, and what a field of a format has to be as wide as it says.
use cppnetool.Prelude.{
  ℕ, zero, suc, ◌*◌, ◌^◌, ◌≤◌, ◌<◌, ◌≡◌, inl, inr, true, false, [], ◌++◌, length, arith,
  length-append, Bool-cases,
}
use native.Mathlib.Nat.{pow-suc}
use cppnetool.Prelude.Int.{ℤ, pos}
use cppnetool.LogStream.{emit, convert, tenth, is_zero, max_digits}
use cppnetool.LogStream.Decimal.{magnitude, magnitude-tenth, is_zero_iff}
use cppnetool.LogStream.Bounds.{length-reverse_onto}

length-emit_le : (fuel k : ℕ) (i : ℤ) → magnitude i < 10 ^ suc k → length (emit fuel i) ≤ suc k
unfolding emit
length-emit_le zero k i h = omega arith
length-emit_le (suc fuel) zero i h =
    let last : is_zero (tenth i) ≡ true =
      ground (arith, is_zero_iff (tenth i), magnitude-tenth i, h) in
    rw last (omega arith)
length-emit_le (suc fuel) (suc k) i h = elim (Bool-cases (is_zero (tenth i))) [
  | inl last ↦ rw last (omega arith)
  | inr more ↦
      let fewer : magnitude (tenth i) < 10 ^ suc k =
        omega (arith, magnitude-tenth i, pow-suc 10 (suc k), h) in
      rw more (omega (arith, length-emit_le fuel k (tenth i) fewer))
]

pow_pos : (k : ℕ) → 1 ≤ 10 ^ k
pow_pos zero = omega arith
pow_pos (suc k) = omega (arith, pow-suc 10 k, pow_pos k)

length-emit_gt :
    (fuel k : ℕ) (i : ℤ) → magnitude i < 10 ^ fuel → 10 ^ k ≤ magnitude i → k < length (emit fuel i)
unfolding emit
length-emit_gt zero k i f h = absurd (omega (arith, pow_pos k, f, h))
length-emit_gt (suc fuel) zero i f h = omega arith
length-emit_gt (suc fuel) (suc k) i f h =
    let power : 10 ^ suc k ≡ 10 ^ k * 10 = pow-suc 10 k in
    let more : is_zero (tenth i) ≡ false =
      ground (arith, is_zero_iff (tenth i), magnitude-tenth i, power, pow_pos k, h) in
    let fewer : magnitude (tenth i) < 10 ^ fuel =
      omega (arith, magnitude-tenth i, pow-suc 10 fuel, f) in
    let enough : 10 ^ k ≤ magnitude (tenth i) = omega (arith, magnitude-tenth i, power, h) in
    rw more (omega (arith, length-emit_gt fuel k (tenth i) fewer enough))

length-convert_pos : (n : ℕ) → length (convert (pos n)) ≡ length (emit max_digits (pos n))
unfolding convert
length-convert_pos n =
    let ds = emit max_digits (pos n) in
    omega (arith, length-reverse_onto (ds ++ []) [], length-append ds [])

-- Numbers below 10 ^ suc k have at most suc k digits, and no others.
pub convert-fits : (k n : ℕ) → n < 10 ^ suc k → length (convert (pos n)) ≤ suc k
convert-fits k n h = omega (arith, length-convert_pos n, length-emit_le max_digits k (pos n) h)

pub convert-wider : (k n : ℕ) → n < 10 ^ max_digits → 10 ^ k ≤ n → k < length (convert (pos n))
convert-wider k n f h = omega (arith, length-convert_pos n, length-emit_gt max_digits k (pos n) f h)
