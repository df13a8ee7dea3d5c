-- ===== src/Logging/Line.antt =====
-- The text of a whole line, and the threads that cannot write any.
use cppnetool.Prelude.{
  ℕ, ◌+◌, ◌-◌, ◌^◌, ◌≤◌, ◌<◌, ◌≡◌, refl, true, false, List, [], ◌∷◌, ◌++◌, ltb, ◌==◌, length,
  replicate, arith, length-append, length-replicate, append_assoc,
}
use cppnetool.Prelude.Result.{ok, err, assertion}
use cppnetool.LogStream.{FixedBuffer, Piece, put_all, small_buffer, max_numeric_size, max_digits}
use cppnetool.LogStream
use cppnetool.LogStream.Width.{convert-wider, convert-fits}
use cppnetool.LogStream.Whole.{texts, put_all-fits}
use cppnetool.Logging.{
  Host, Cache, LogLevel, trace, debug, info, warn, error, fatal, level_name, Macro, level_of,
  saved_errno, func_pieces, error_pieces, last_pieces, Place, tid_field, decimal, pad, fmt, base_at,
  new_impl, finish, make_line,
}
use cppnetool.Logging.Clock.{
  InRange, IsCurrent, second_of, time_field, current, pad-length, put_t-fits, fmt-ok,
  format_time_lem, time_field-length,
}

level_name-length : (level : LogLevel) → length (level_name level) ≡ 6
level_name-length trace = refl
level_name-length debug = refl
level_name-length info = refl
level_name-length warn = refl
level_name-length error = refl
level_name-length fatal = refl

tid_field-length : (tid : ℕ) → tid < 10 ^ 5 → length (tid_field tid) ≡ 10
tid_field-length tid h =
    omega (arith, pad-length 32 4 tid h, length-append (pad 32 5 (decimal tid)) (32 ∷ []))

-- The 42 characters at the head of each line.
abbrev pub head : Host → LogLevel → List ℕ
head host level = time_field host ++ (tid_field host.tid ++ level_name level)

head-length :
    (host : Host) (level : LogLevel)
    → InRange (host.gmtime (second_of host))
    → host.tid < 10 ^ 5
    → length (head host level) ≡ 42
head-length host level r small = omega (
  arith,
  time_field-length host r,
  tid_field-length host.tid small,
  level_name-length level,
  length-append (time_field host) (tid_field host.tid ++ level_name level),
  length-append (tid_field host.tid) (level_name level),
)

new_impl_lem :
    (host : Host) (level : LogLevel) (errno : ℕ) (at : Place) (c : Cache)
    → IsCurrent host.gmtime c
    → InRange (host.gmtime (second_of host))
    → 1 ≤ second_of host
    → host.tid < 10 ^ 5
    → 42 + length (texts (error_pieces host errno)) + max_numeric_size ≤ small_buffer
    → new_impl host level errno at c
      ≡ ok (
        record {
          stream = record {
            size = small_buffer;
            written = head host level ++ texts (error_pieces host errno);
          };
          level = level;
          line = at.line;
          base = base_at at;
        },
        current host,
      )
unfolding new_impl LogStream.new
new_impl_lem host level errno at c v r later small fits =
    rw
      (
        format_time_lem host c LogStream.new v r later (omega arith),
        fmt-ok (tid_field host.tid) 10 width (omega arith),
        exact,
        put_t-fits (tid_field host.tid) 10 b1 width (omega (arith, time_field-length host r)),
        put_t-fits (level_name level) 6 b2 (level_name-length level) (
            omega (
              arith,
              time_field-length host r,
              width,
              length-append (time_field host) (tid_field host.tid),
            )),
        append_assoc (time_field host) (tid_field host.tid) (level_name level),
        put_all-fits (error_pieces host errno) b3
            (omega (arith, head-length host level r small, fits)),
      )
      refl
  where
    width : length (tid_field host.tid) ≡ 10
    width = tid_field-length host.tid small

    exact : (length (tid_field host.tid) == 10) ≡ true
    exact = ground (arith, width)

    b1 : FixedBuffer
    b1 = record { size = small_buffer; written = time_field host }

    b2 : FixedBuffer
    b2 = record { size = small_buffer; written = time_field host ++ tid_field host.tid }

    b3 : FixedBuffer
    b3 = record { size = small_buffer; written = head host level }

-- What stands behind the head of a line.
abbrev pub rest : Macro → Place → Host → List Piece → List ℕ
rest m at host message =
    texts (error_pieces host (saved_errno m host))
    ++ (texts (func_pieces m at.func_at)
        ++ (texts message ++ texts (last_pieces (base_at at) at.line)))

-- A thread with an id of at most five digits writes, at a time with a year of at most four digits, the
-- whole line where it fits into the buffer with the room that a number asks for: its time, its
-- id and the level in 42 characters, the address of the error's text and the error where the macro asks
-- for them, the address of the function's name, the message, and the address of the base name and the
-- line of the place; no assertion fails.
pub make_line_lem :
    (m : Macro) (at : Place) (host : Host) (message : List Piece) (c : Cache)
    → IsCurrent host.gmtime c
    → InRange (host.gmtime (second_of host))
    → 1 ≤ second_of host
    → host.tid < 10 ^ 5
    → 42 + length (rest m at host message) + max_numeric_size ≤ small_buffer
    → make_line m at host message c
      ≡ ok (head host (level_of m) ++ rest m at host message, current host)
unfolding make_line finish
make_line_lem m at host message c v r later small fits =
    rw
      (
        new_impl_lem host (level_of m) (saved_errno m host) at c v r later small
            (omega (arith, fits, split1)),
        put_all-fits (func_pieces m at.func_at) (written (h ++ e))
            (omega (arith, fits, split1, split2, split3, long, length-append h e)),
        put_all-fits message (written ((h ++ e) ++ f)) (
            omega (
              arith,
              fits,
              split1,
              split2,
              split3,
              long,
              length-append h e,
              length-append (h ++ e) f,
            )),
        put_all-fits (last_pieces (base_at at) at.line) (written (((h ++ e) ++ f) ++ t)) (
            omega (
              arith,
              fits,
              split1,
              split2,
              split3,
              long,
              length-append h e,
              length-append (h ++ e) f,
              length-append ((h ++ e) ++ f) t,
            )),
        append_assoc ((h ++ e) ++ f) t l,
        append_assoc (h ++ e) f (t ++ l),
        append_assoc h e (f ++ (t ++ l)),
      )
      refl
  where
    h : List ℕ
    h = head host (level_of m)

    e : List ℕ
    e = texts (error_pieces host (saved_errno m host))

    f : List ℕ
    f = texts (func_pieces m at.func_at)

    t : List ℕ
    t = texts message

    l : List ℕ
    l = texts (last_pieces (base_at at) at.line)

    written : List ℕ → FixedBuffer
    written s = record { size = small_buffer; written = s }

    long : length h ≡ 42
    long = head-length host (level_of m) r small

    split1 : length (e ++ (f ++ (t ++ l))) ≡ length e + length (f ++ (t ++ l))
    split1 = length-append e (f ++ (t ++ l))

    split2 : length (f ++ (t ++ l)) ≡ length f + length (t ++ l)
    split2 = length-append f (t ++ l)

    split3 : length (t ++ l) ≡ length t + length l
    split3 = length-append t l

tid_field-wide :
    (tid : ℕ)
    → 10 ^ 5 ≤ tid
    → tid < 10 ^ max_digits
    → (10 < length (tid_field tid)) × (length (tid_field tid) < 32)
tid_field-wide tid wide f =
    let fill = length-replicate {A = ℕ} (5 - length (decimal tid)) 32 in
    let field = length-append (pad 32 5 (decimal tid)) (32 ∷ []) in
    let inner = length-append (replicate (5 - length (decimal tid)) 32) (decimal tid) in
    let digits = convert-wider 5 tid f wide in
    (
      omega (arith, fill, field, inner, digits),
      omega (arith, fill, field, inner, digits, convert-fits 19 tid f),
    )

-- A thread whose id has more than five digits, which Linux gives to threads, cannot write a line: the
-- assertion on the width of the id fails, whatever the macro and the message.
pub make_line-assertion :
    (m : Macro) (at : Place) (host : Host) (message : List Piece) (c : Cache)
    → IsCurrent host.gmtime c
    → InRange (host.gmtime (second_of host))
    → 1 ≤ second_of host
    → 10 ^ 5 ≤ host.tid
    → host.tid < 10 ^ max_digits
    → make_line m at host message c ≡ err assertion
unfolding make_line new_impl fmt LogStream.new
make_line-assertion m at host message c v r later wide f =
    rw (format_time_lem host c LogStream.new v r later (omega arith), short, wrong) refl
  where
    widths : (10 < length (tid_field host.tid)) × (length (tid_field host.tid) < 32)
    widths = tid_field-wide host.tid wide f

    short : ltb (length (tid_field host.tid)) 32 ≡ true
    short = ground (arith, widths.1)

    wrong : (length (tid_field host.tid) == 10) ≡ false
    wrong = ground (arith, widths.0)
