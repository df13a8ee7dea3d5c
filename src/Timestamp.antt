-- ===== src/Timestamp.antt =====
-- cppnetool/base/Timestamp.h and Timestamp.cc: microseconds since the epoch. Times are taken to be
-- not negative and far below 2^63, so that no sum of them overflows an `int64_t`.
pub mod Text
mod Examples
use cppnetool.Prelude.{ℕ, ◌+◌, ◌*◌, Bool, ltb}

abbrev pub Timestamp : Type 0
Timestamp = ℕ

abbrev pub micro_seconds_per_second : ℕ
micro_seconds_per_second = 1000 * 1000

abbrev pub invalid : Timestamp
invalid = 0

abbrev pub valid : Timestamp → Bool
valid t = ltb 0 t

-- `now` from the `timeval` of `gettimeofday`.
abbrev pub now : ℕ → ℕ → Timestamp
now tv_sec tv_usec = tv_sec * micro_seconds_per_second + tv_usec

-- A number of seconds, a `double` in the source: the test `> 0.0`, and its product with the
-- microseconds of a second, cut to an integer.
pub record Seconds : Type 0 where
  pub positive : Bool
  pub micros : ℕ

abbrev pub add_time : Timestamp → Seconds → Timestamp
add_time timestamp seconds = timestamp + seconds.micros
