-- ===== src/Logging/Clock.antt =====
-- The time at the head of a line, and the text of the second that is kept for the next line.
use cppnetool.Prelude.{
  ℕ, suc, ◌+◌, ◌-◌, ◌/◌, ◌%◌, ◌^◌, ◌≤◌, ◌<◌, ◌≡◌, refl, ap, ap₂, ltb, ◌∙◌, ◌⊎◌, inl, inr, true,
  List, [], ◌∷◌, ◌++◌, ◌==◌, length, replicate, arith, length-append, length-replicate,
  append_assoc, Bool-cases,
}
use cppnetool.Prelude.Result.{ok}
use cppnetool.Timestamp.{micro_seconds_per_second}
use cppnetool.LogStream.{FixedBuffer}
use cppnetool.LogStream.Width.{convert-fits}
use cppnetool.LogStream.Whole.{append-fits}
use cppnetool.Logging.{
  Tm, Host, two, day_text, clock_text, Cache, no_time, pad, decimal, stamp, micros, fmt, put_t,
  new_second, format_time, print_time,
}

pub pad-length : (c k n : ℕ) → n < 10 ^ suc k → length (pad c (suc k) (decimal n)) ≡ suc k
pad-length c k n h = omega (
  arith,
  convert-fits k n h,
  length-append (replicate (suc k - length (decimal n)) c) (decimal n),
  length-replicate (suc k - length (decimal n)) c,
)

-- The fields have the widths of the format.
pub record InRange (t : Tm) : Type 0 where
  pub year_lt : t.year < 10 ^ 4
  pub month_lt : t.month < 10 ^ 2
  pub day_lt : t.day < 10 ^ 2
  pub hour_lt : t.hour < 10 ^ 2
  pub minute_lt : t.minute < 10 ^ 2
  pub second_lt : t.second < 10 ^ 2

two-length : (n : ℕ) → n < 10 ^ 2 → length (two n) ≡ 2
two-length n h = pad-length 48 1 n h

day_text-length : (t : Tm) → InRange t → length (day_text t) ≡ 8
day_text-length t r = omega (
  arith,
  pad-length 32 3 t.year r.year_lt,
  two-length t.month r.month_lt,
  two-length t.day r.day_lt,
  length-append (pad 32 4 (decimal t.year)) (two t.month ++ two t.day),
  length-append (two t.month) (two t.day),
)

clock_text-length : (t : Tm) → InRange t → length (clock_text t) ≡ 8
clock_text-length t r = omega (
  arith,
  two-length t.hour r.hour_lt,
  two-length t.minute r.minute_lt,
  two-length t.second r.second_lt,
  length-append (two t.hour) (58 ∷ (two t.minute ++ (58 ∷ two t.second))),
  length-append (two t.minute) (58 ∷ two t.second),
)

stamp-length : (t : Tm) → InRange t → length (stamp t) ≡ 17
stamp-length t r = omega (
  arith,
  day_text-length t r,
  clock_text-length t r,
  length-append (day_text t) (32 ∷ clock_text t),
)

micros-length : (m : ℕ) → m < 10 ^ 6 → length (micros m) ≡ 9
micros-length m h =
    omega (arith, pad-length 48 5 m h, length-append (pad 48 6 (decimal m)) (90 ∷ 32 ∷ []))

-- The text that is kept is the one of its second, unless nothing was printed yet.
abbrev pub IsCurrent : (ℕ → Tm) → Cache → Type 0
IsCurrent gmtime c = (c ≡ no_time) ⊎ (c.time_text ≡ stamp (gmtime c.last_second))

abbrev pub second_of : Host → ℕ
second_of host = host.time / micro_seconds_per_second

abbrev pub time_field : Host → List ℕ
time_field host =
    stamp (host.gmtime (second_of host)) ++ micros (host.time % micro_seconds_per_second)

abbrev pub current : Host → Cache
current host = record {
  time_text = stamp (host.gmtime (second_of host));
  last_second = second_of host;
}

pub time_field-length :
    (host : Host) → InRange (host.gmtime (second_of host)) → length (time_field host) ≡ 26
time_field-length host r = omega (
  arith,
  stamp-length (host.gmtime (second_of host)) r,
  micros-length (host.time % micro_seconds_per_second) (omega arith),
  length-append (stamp (host.gmtime (second_of host)))
      (micros (host.time % micro_seconds_per_second)),
)

pub put_t-fits :
    (s : List ℕ) (n : ℕ) (b : FixedBuffer)
    → length s ≡ n
    → length b.written + n < b.size
    → put_t s n b ≡ ok (record b { written = b.written ++ s })
unfolding put_t
put_t-fits s n b h k =
    let exact : (length s == n) ≡ true = ground (arith, h) in
    rw (exact, append-fits s b (omega (arith, h, k))) refl

pub fmt-ok : (s : List ℕ) (n : ℕ) → length s ≡ n → n < 32 → fmt s ≡ ok s
unfolding fmt
fmt-ok s n h k = let short : ltb (length s) 32 ≡ true = ground (arith, h, k) in rw short refl

print_time_lem :
    (host : Host) (c : Cache) (b : FixedBuffer)
    → length c.time_text ≡ 17
    → length b.written + 26 < b.size
    → print_time host c b
      ≡ ok (
        record b {
          written = b.written ++ (c.time_text ++ micros (host.time % micro_seconds_per_second));
        },
        c,
      )
unfolding print_time
print_time_lem host c b h room =
    rw
      (
        fmt-ok us 9 us_length (omega arith),
        exact,
        put_t-fits c.time_text 17 b h (omega (arith, room)),
        put_t-fits us 9 (record b { written = b.written ++ c.time_text }) us_length
            (omega (arith, room, h, length-append b.written c.time_text)),
        append_assoc b.written c.time_text us,
      )
      refl
  where
    us : List ℕ
    us = micros (host.time % micro_seconds_per_second)

    us_length : length us ≡ 9
    us_length = micros-length (host.time % micro_seconds_per_second) (omega arith)

    exact : (length us == 9) ≡ true
    exact = ground (arith, us_length)

-- Whether the second is the one of the last line or not, the line begins with its time, and the cache
-- is left with its second.
pub format_time_lem :
    (host : Host) (c : Cache) (b : FixedBuffer)
    → IsCurrent host.gmtime c
    → InRange (host.gmtime (second_of host))
    → 1 ≤ second_of host
    → length b.written + 26 < b.size
    → format_time host c b ≡ ok (record b { written = b.written ++ time_field host }, current host)
unfolding format_time new_second
format_time_lem host c b v r later room = elim (Bool-cases (second_of host == c.last_second)) [
  | inl same ↦
      let now : c.last_second ≡ second_of host = ground (arith, same) in
      elim v [
        | inl none ↦ absurd (omega (arith, now, later, ap (λ d. d.last_second) none))
        | inr text ↦
            let kept : c ≡ current host =
              ap₂ (λ t s. record { time_text = t; last_second = s })
                (text ∙ ap (λ s. stamp (host.gmtime s)) now) now in
            rw same (ap (λ d. print_time host d b) kept ∙ printed)
      ]
  | inr new ↦ rw (new, exact) printed
]
  where
    printed :
        print_time host (current host) b
        ≡ ok (record b { written = b.written ++ time_field host }, current host)
    printed =
        print_time_lem host (current host) b (stamp-length (host.gmtime (second_of host)) r) room

    exact : (length (stamp (host.gmtime (second_of host))) == 17) ≡ true
    exact = ground (arith, stamp-length (host.gmtime (second_of host)) r)
