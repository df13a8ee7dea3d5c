-- ===== src/EventLoop/Timers.antt =====
-- The timers that EventLoop.cc passes on to its `TimerQueue`: `runAt`, `runAfter` and `runEvery`. The
-- address and the sequence number of the new timer are arguments.
use cppnetool.Prelude.{ℕ, false}
use cppnetool.Prelude.Result.{Result}
use cppnetool.SortedSet.{Pair}
use cppnetool.Timestamp.{Timestamp, Seconds, add_time}
use cppnetool.TimerQueue.{TimerQueue, add_timer}

abbrev no_interval : Seconds
no_interval = record { positive = false; micros = 0 }

unfoldable pub run_at : Timestamp → ℕ → ℕ → TimerQueue → Result (Pair × TimerQueue)
run_at time p sequence q = add_timer time no_interval p sequence q

-- `now` is what `Timestamp::now()` returns.
unfoldable pub run_after : Seconds → Timestamp → ℕ → ℕ → TimerQueue → Result (Pair × TimerQueue)
run_after delay now p sequence q = run_at (add_time now delay) p sequence q

unfoldable pub run_every : Seconds → Timestamp → ℕ → ℕ → TimerQueue → Result (Pair × TimerQueue)
run_every interval now p sequence q = add_timer (add_time now interval) interval p sequence q
