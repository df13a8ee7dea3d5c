-- ===== src/EventLoop/Loop.antt =====
-- The polling loop of EventLoop.cc: the channels that `poll` finds are dispatched one after the other.
-- What their callbacks do is an argument, `react`, which is given the pointer to the channel and the
-- callbacks made; it may change the channels and set `quit_`. Another argument is `loopCallback_`,
-- where one is set.
use cppnetool.Prelude.{ℕ, Bool, true, false, not, Option, none, some, List, [], ◌∷◌, update}
use cppnetool.Prelude.Result.{Result, ok, check, ◌>>=◌, ◌>>◌}
use cppnetool.Channel.{Call, handle_event}
use cppnetool.Poller.{Poller, PollResult, poll}

-- The part of the loop that callbacks can reach.
pub record Looping : Type 0 where
  pub poller : Poller
  pub looping : Bool
  pub quit : Bool

module _ (react : ℕ → List Call → Looping → Result Looping)
    (loop_callback : Option (Looping → Result Looping)) where
  -- The `for` over `activeChannels_`.
  unfoldable pub dispatch : ℕ → List ℕ → Looping → Result Looping
  dispatch now [] l = ok l
  dispatch now (p ∷ ps) l = do
    let (calls, c) = handle_event now (l.poller.objects p)
    let handled = record l.poller { objects = update l.poller.objects p c }
    l' ← react p calls (record l { poller = handled })
    dispatch now ps l'

  abbrev call_back : Option (Looping → Result Looping) → Looping → Result Looping
  call_back none l = ok l
  call_back (some callback) l = callback l

  -- One round, on what `poll` gives and the time that it returns at.
  unfoldable pub round : PollResult → ℕ → Looping → Result Looping
  round result now l = do
    (active, poller) ← poll result l.poller
    l' ← dispatch now active (record l { poller = poller })
    call_back loop_callback l'

  -- The rounds, on the results of the calls of `poll`, until `quit_` is set.
  unfoldable pub rounds : List (PollResult × ℕ) → Looping → Result Looping
  rounds [] l = ok l
  rounds (r ∷ rs) l = elim l.quit [
    | true ↦ ok (record l { looping = false })
    | false ↦ do l' ← round r.0 r.1 l; rounds rs l'
  ]

  unfoldable pub loop : List (PollResult × ℕ) → Looping → Result Looping
  loop rs l = do check (not l.looping); rounds rs (record l { looping = true; quit = false })
