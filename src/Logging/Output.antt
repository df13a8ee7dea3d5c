-- ===== src/Logging/Output.antt =====
-- `pidOutput` and `pidFlush` of Logging.cc, `~Logger`, and a macro from its test to the end of the
-- logger. The files are kept in a table that the id of the thread modulo its size leads into.
use cppnetool.Prelude.{
  ℕ, suc, ◌%◌, Bool, true, false, List, [], ◌∷◌, ◌++◌, Option, some, none, leb, if◌then◌else◌,
  length, update,
}
use cppnetool.Prelude.Result.{Result, ok, err, invalid_access, ◌>>=◌}
use cppnetool.LogStream.{Piece}
use cppnetool.Logging.{
  LogLevel, fatal, Macro, level_of, is_logged, Place, Host, Cache, decimal, make_line,
}

-- `PIDS`
abbrev pub pids : ℕ
pids = 20

-- "thread_<pid>_log.txt", or the standard output where it cannot be opened.
pub data Sink : Type 0 where
  thread_file : ℕ → Sink
  stdout : Sink

pub data Action : Type 0 where
  wrote : Sink → List ℕ → Action
  flushed : Option Sink → Action

-- `file_fd`, and what was done with the files.
pub record Output : Type 0 where
  pub file_fd : ℕ → Option Sink
  pub actions : List Action

-- The file of a thread that finds its place of the table empty. Its id and a closing zero are written
-- to an array of six characters.
unfoldable pub open_file : ℕ → Bool → Result Sink
open_file pid opened =
    if leb (suc (length (decimal pid))) 6
    then ok (if opened then thread_file pid else stdout)
    else err invalid_access

unfoldable pub sink_for : Option Sink → ℕ → Bool → Result Sink
sink_for (some sink) pid opened = ok sink
sink_for none pid opened = open_file pid opened

-- `opened` tells whether `fopen` succeeds.
unfoldable pub pid_output : ℕ → Bool → List ℕ → Output → Result Output
pid_output pid opened msg out = do
  sink ← sink_for (out.file_fd (pid % pids)) pid opened
  ok (record out {
    file_fd = update out.file_fd (pid % pids) (some sink);
    actions = out.actions ++ wrote sink msg ∷ [];
  })

unfoldable pub pid_flush : ℕ → Output → Output
pid_flush pid out = record out { actions = out.actions ++ flushed (out.file_fd (pid % pids)) ∷ [] }

abbrev pub is_fatal : LogLevel → Bool
is_fatal fatal = true
is_fatal _ = false

-- `~Logger` behind `finish`, and whether it calls `abort`.
unfoldable pub end_line : LogLevel → ℕ → Bool → List ℕ → Output → Result (Output × Bool)
end_line level pid opened msg out = do
  out' ← pid_output pid opened msg out
  let once = pid_flush pid out'
  ok (if is_fatal level then (pid_flush pid once, true) else (once, false))

unfoldable pub log_made :
    Macro → Place → Host → Bool → List Piece → Cache → Output → Result (Output × Bool × Cache)
log_made m at host opened message c out = do
  (msg, c') ← make_line m at host message c
  (out', aborted) ← end_line (level_of m) host.tid opened msg out
  ok (out', aborted, c')

-- A macro with the level that is set.
unfoldable pub log_message :
    LogLevel
    → Macro
    → Place
    → Host
    → Bool
    → List Piece
    → Cache
    → Output
    → Result (Output × Bool × Cache)
log_message level m at host opened message c out =
    let made = log_made m at host opened message c out in
    if is_logged level m then made else ok (out, false, c)

-- The file that the lines of a thread go to.
abbrev pub sink_of : Option Sink → ℕ → Bool → Sink
sink_of (some sink) pid opened = sink
sink_of none pid opened = if opened then thread_file pid else stdout

abbrev pub ends : LogLevel → Option Sink → List Action
ends level sink = if is_fatal level then flushed sink ∷ [] else []
