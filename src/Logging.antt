-- ===== src/Logging.antt =====
-- cppnetool/base/Logging.h and Logging.cc, and `Fmt` of LogStream.h: a line of the log, from the macro
-- to the file. Characters are their ASCII codes, texts are without the closing zero; `snprintf` is
-- written out for the formats that are used. What `gmtime_r` and `strerror_r` give, the id of the
-- thread and the clock are in `Host`.
pub mod Basename
pub mod Clock
pub mod Line
pub mod Output
mod Examples
use cppnetool.Prelude.{
  ℕ, ◌+◌, ◌-◌, ◌/◌, ◌%◌, Bool, true, false, List, [], ◌∷◌, ◌++◌, Option, some, none, ltb, leb, ◌==◌,
  if◌then◌else◌, length, replicate,
}
use cppnetool.Prelude.Result.{Result, ok, check, ◌>>=◌, ◌>>◌}
use cppnetool.Prelude.Int.{pos}
use cppnetool.Timestamp.{Timestamp, micro_seconds_per_second}
use cppnetool.LogStream.{FixedBuffer, Piece, text, integer, pointer, append, put_all, convert}
use cppnetool.LogStream

-- `LogLevel`, with the numbers of the enumeration.
pub data LogLevel : Type 0 where
  trace debug info warn error fatal : LogLevel

abbrev pub number : LogLevel → ℕ
number trace = 0
number debug = 1
number info = 2
number warn = 3
number error = 4
number fatal = 5

-- `initLogLevel` returns in its first line.
abbrev pub init_log_level : LogLevel
init_log_level = trace

-- `LogLevelName`
abbrev pub level_name : LogLevel → List ℕ
level_name trace = 84 ∷ 82 ∷ 65 ∷ 67 ∷ 69 ∷ 32 ∷ []
level_name debug = 68 ∷ 69 ∷ 66 ∷ 85 ∷ 71 ∷ 32 ∷ []
level_name info = 73 ∷ 78 ∷ 70 ∷ 79 ∷ 32 ∷ 32 ∷ []
level_name warn = 87 ∷ 65 ∷ 82 ∷ 78 ∷ 32 ∷ 32 ∷ []
level_name error = 69 ∷ 82 ∷ 82 ∷ 79 ∷ 82 ∷ 32 ∷ []
level_name fatal = 70 ∷ 65 ∷ 84 ∷ 65 ∷ 76 ∷ 32 ∷ []

-- `%d` of a number that is not negative, and a field that is filled up on its left side.
abbrev pub decimal : ℕ → List ℕ
decimal n = convert (pos n)

abbrev pub pad : ℕ → ℕ → List ℕ → List ℕ
pad c width s = replicate (width - length s) c ++ s

-- `struct tm`, with the year and the month as they are printed.
pub record Tm : Type 0 where
  pub year : ℕ
  pub month : ℕ
  pub day : ℕ
  pub hour : ℕ
  pub minute : ℕ
  pub second : ℕ

-- `strerror` is the address of the text for an error.
pub record Host : Type 0 where
  pub gmtime : ℕ → Tm
  pub strerror : ℕ → ℕ
  pub errno : ℕ
  pub tid : ℕ
  pub time : Timestamp

-- `t_time` and `t_lastSecond`.
pub record Cache : Type 0 where
  pub time_text : List ℕ
  pub last_second : ℕ

abbrev pub no_time : Cache
no_time = record { time_text = []; last_second = 0 }

-- "%02d"
abbrev pub two : ℕ → List ℕ
two n = pad 48 2 (decimal n)

-- "%4d%02d%02d %02d:%02d:%02d"
abbrev pub day_text : Tm → List ℕ
day_text t = pad 32 4 (decimal t.year) ++ (two t.month ++ two t.day)

abbrev pub clock_text : Tm → List ℕ
clock_text t = two t.hour ++ (58 ∷ (two t.minute ++ (58 ∷ two t.second)))

abbrev pub stamp : Tm → List ℕ
stamp t = day_text t ++ (32 ∷ clock_text t)

-- ".%06dZ "
abbrev pub micros : ℕ → List ℕ
micros m = 46 ∷ (pad 48 6 (decimal m) ++ (90 ∷ 32 ∷ []))

-- "tid:%5d "
abbrev pub tid_field : ℕ → List ℕ
tid_field tid = 116 ∷ 105 ∷ 100 ∷ 58 ∷ (pad 32 5 (decimal tid) ++ (32 ∷ []))

-- `Fmt` of a text that `snprintf` makes.
unfoldable pub fmt : List ℕ → Result (List ℕ)
fmt s = do check (ltb (length s) 32); ok s

-- `operator<<` of `T(str, len)`.
unfoldable pub put_t : List ℕ → ℕ → FixedBuffer → Result FixedBuffer
put_t str len b = do check (length str == len); ok (append str b)

-- `t_time` of another second than the last one.
unfoldable pub new_second : ℕ → Tm → Result Cache
new_second seconds t = do
  check (length (stamp t) == 17)
  ok (record { time_text = stamp t; last_second = seconds })

-- `t_time` and the microseconds.
unfoldable pub print_time : Host → Cache → FixedBuffer → Result (FixedBuffer × Cache)
print_time host c b = do
  us ← fmt (micros (host.time % micro_seconds_per_second))
  check (length us == 9)
  b1 ← put_t c.time_text 17 b
  b2 ← put_t us 9 b1
  ok (b2, c)

unfoldable pub format_time : Host → Cache → FixedBuffer → Result (FixedBuffer × Cache)
format_time host c b = do
  let seconds = host.time / micro_seconds_per_second
  let fresh = new_second seconds (host.gmtime seconds)
  c' ← if seconds == c.last_second then ok c else fresh
  print_time host c' b

-- The text behind the last '/'.
unfoldable pub after_slash : List ℕ → Option (List ℕ)
after_slash [] = none
after_slash (c ∷ cs) = elim (after_slash cs) [
  | some rest ↦ some rest
  | none ↦ if c == 47 then some cs else none
]

abbrev pub base_of : Option (List ℕ) → List ℕ → List ℕ
base_of none fullname = fullname
base_of (some rest) fullname = rest

unfoldable pub basename : List ℕ → List ℕ
basename fullname = base_of (after_slash fullname) fullname

-- Where a macro stands: the name of the file, the address of this name and of the function's.
pub record Place : Type 0 where
  pub file : List ℕ
  pub file_at : ℕ
  pub line : ℕ
  pub func_at : ℕ

-- The address behind the last '/' of the name of the file, or that of all of it.
abbrev pub base_at : Place → ℕ
base_at at = at.file_at + (length at.file - length (basename at.file))

-- `base` is `basename_`, an address.
pub record Impl : Type 0 where
  pub stream : FixedBuffer
  pub level : LogLevel
  pub line : ℕ
  pub base : ℕ

-- The error of the system, where there is one. `LogStream` has no operator for a `const char *`, which
-- is therefore put out as a `const void *`, by its address; a literal is put out as a `char *`.
unfoldable pub error_pieces : Host → ℕ → List Piece
error_pieces host saved_errno =
    if saved_errno == 0
    then []
    else pointer (host.strerror saved_errno)
      ∷ text (32 ∷ 40 ∷ 101 ∷ 114 ∷ 114 ∷ 110 ∷ 111 ∷ 61 ∷ 32 ∷ [])
      ∷ integer (pos saved_errno)
      ∷ text (41 ∷ 32 ∷ [])
      ∷ []

-- `Impl::Impl`
unfoldable pub new_impl : Host → LogLevel → ℕ → Place → Cache → Result (Impl × Cache)
new_impl host level saved_errno at c = do
  (b1, c') ← format_time host c LogStream.new
  tid ← fmt (tid_field host.tid)
  check (length tid == 10)
  b2 ← put_t tid 10 b1
  b3 ← put_t (level_name level) 6 b2
  let stream = put_all (error_pieces host saved_errno) b3
  ok (record { stream = stream; level = level; line = at.line; base = base_at at }, c')

-- `Impl::finish`, which puts out the address of the base name.
abbrev pub last_pieces : ℕ → ℕ → List Piece
last_pieces base line =
    text (32 ∷ 45 ∷ 32 ∷ [])
    ∷ pointer base
    ∷ text (58 ∷ [])
    ∷ integer (pos line)
    ∷ text (10 ∷ [])
    ∷ []

unfoldable pub finish : Impl → Impl
finish i = record i { stream = put_all (last_pieces i.base i.line) i.stream }

-- The macros, with what each passes to `Logger::Logger`.
pub data Macro : Type 0 where
  log_trace log_debug log_info log_warn log_error log_fatal log_syserr log_sysfatal : Macro

abbrev pub level_of : Macro → LogLevel
level_of log_trace = trace
level_of log_debug = debug
level_of log_info = info
level_of log_warn = warn
level_of log_error = error
level_of log_fatal = fatal
level_of log_syserr = error
level_of log_sysfatal = fatal

abbrev pub saved_errno : Macro → Host → ℕ
saved_errno log_syserr host = host.errno
saved_errno log_sysfatal host = host.errno
saved_errno _ host = 0

-- `func << ' '`, of the constructor with a function name, whose address is put out.
abbrev pub func_pieces : Macro → ℕ → List Piece
func_pieces log_trace func = pointer func ∷ text (32 ∷ []) ∷ []
func_pieces log_debug func = pointer func ∷ text (32 ∷ []) ∷ []
func_pieces _ func = []

-- The test before the macros of the lower levels.
abbrev pub is_logged : LogLevel → Macro → Bool
is_logged level log_trace = leb (number level) (number trace)
is_logged level log_debug = leb (number level) (number debug)
is_logged level log_info = leb (number level) (number info)
is_logged level _ = true

-- A macro, and what is put into its stream, up to the call of `g_output` in the destructor.
unfoldable pub make_line : Macro → Place → Host → List Piece → Cache → Result (List ℕ × Cache)
make_line m at host message c = do
  (i, c') ← new_impl host (level_of m) (saved_errno m host) at c
  let written = put_all message (put_all (func_pieces m at.func_at) i.stream)
  ok ((finish (record i { stream = written })).stream.written, c')
