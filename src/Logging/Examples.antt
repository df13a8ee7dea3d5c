-- ===== src/Logging/Examples.antt =====
-- The theorems on the log at concrete inputs: a thread in the last second of 1999.
use cppnetool.Prelude.{ℕ, ◌≡◌, ◌++◌, refl, inl, [], ◌∷◌, none, arith}
use cppnetool.Prelude.Result.{err, assertion}
use cppnetool.LogStream.{text, convert, convert_hex, emit_hex, emit, reverse_onto}
use cppnetool.LogStream.Bounds.{text_of}
use cppnetool.Logging.{
  Tm, Host, no_time, Place, log_info, make_line, info, basename, after_slash, error_pieces,
}
use cppnetool.Logging.Clock.{InRange}
use cppnetool.Logging.Line.{make_line-assertion, head, rest}
use cppnetool.Logging.Output.{Output}

abbrev party : ℕ → Tm
party s = record { year = 1999; month = 12; day = 31; hour = 23; minute = 59; second = 59 }

abbrev host_of : ℕ → Host
host_of tid = record {
  gmtime = party;
  strerror = λ e. 48;
  errno = 4;
  tid = tid;
  time = 946684799000007;
}

abbrev here : Place
here = record { file = 97 ∷ 47 ∷ 98 ∷ []; file_at = 160; line = 12; func_at = 176 }

party-InRange : (s : ℕ) → InRange (party s)
party-InRange s = record {
  year_lt = omega arith;
  month_lt = omega arith;
  day_lt = omega arith;
  hour_lt = omega arith;
  minute_lt = omega arith;
  second_lt = omega arith;
}

-- "19991231 23:59:59.000007Z tid:   42 INFO  hi - 0xA2:12", where the base name is at 0xA2, and the end of the line.
make_line_text :
    head (host_of 42) info ++ rest log_info here (host_of 42) (text (104 ∷ 105 ∷ []) ∷ [])
    ≡ 49 ∷ 57 ∷ 57 ∷ 57 ∷ 49 ∷ 50 ∷ 51 ∷ 49 ∷ 32 ∷ 50 ∷ 51 ∷ 58 ∷ 53 ∷ 57 ∷ 58 ∷ 53 ∷ 57 ∷ 46 ∷ 48
      ∷ 48 ∷ 48 ∷ 48 ∷ 48 ∷ 55 ∷ 90 ∷ 32 ∷ 116 ∷ 105 ∷ 100 ∷ 58 ∷ 32 ∷ 32 ∷ 32 ∷ 52 ∷ 50 ∷ 32 ∷ 73
      ∷ 78 ∷ 70 ∷ 79 ∷ 32 ∷ 32 ∷ 104 ∷ 105 ∷ 32 ∷ 45 ∷ 32 ∷ 48 ∷ 120 ∷ 65 ∷ 50 ∷ 58 ∷ 49 ∷ 50 ∷ 10
      ∷ []
unfolding convert emit reverse_onto convert_hex emit_hex text_of basename after_slash error_pieces
make_line_text = refl

make_line-assertion_example : make_line log_info here (host_of 123456) [] no_time ≡ err assertion
make_line-assertion_example =
    make_line-assertion log_info here (host_of 123456) [] no_time (inl refl)
      (party-InRange 946684799) (omega arith) (omega arith) (omega arith)

abbrev empty : Output
empty = record { file_fd = λ slot. none; actions = [] }
