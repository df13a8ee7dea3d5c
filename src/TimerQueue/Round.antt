-- ===== src/TimerQueue/Round.antt =====
-- `handleRead`: the timers that are due, their callbacks, `reset` and the next alarm.
use cppnetool.Prelude.{ℕ, true, List, [], ◌∷◌}
use cppnetool.Prelude.Result.{Result, ok, err}
use cppnetool.SortedSet.{Pair}
use cppnetool.Timestamp.{Timestamp}
use cppnetool.TimerQueue.{TimerQueue, Request}
use cppnetool.TimerQueue.Invariant.{Scheduled}
use cppnetool.TimerQueue.Callbacks.{CanRun}

module _ (q : TimerQueue) where
  abbrev AllScheduled : List Pair → Type 0
  AllScheduled [] = Unit {0}
  AllScheduled (e ∷ es) = Scheduled q e.0 e.1 × AllScheduled es

-- What the callbacks of the timers that `getExpired` returns may do.
abbrev pub CanHandle : (ℕ → List Request) → Result (List Pair × TimerQueue) → Type 0
CanHandle behaviour (ok (due, q)) =
    CanRun behaviour due (record q { calling = true; canceling = [] })
CanHandle behaviour (err e) = Unit {0}
