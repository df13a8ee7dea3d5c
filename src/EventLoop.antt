-- ===== src/EventLoop.antt =====
-- cppnetool/net/EventLoop.h and EventLoop.cc: the functors that are queued in a loop, and how it is
-- woken up for them. A functor is a number; `behaviour` tells which functors it queues, in the
-- loop's thread, when it runs. The polling itself is `Poller.poll`, the dispatch is
-- `Channel.handle_event`, and the timers are in `TimerQueue`.
pub mod Steps
pub mod Order
pub mod Wakeup
pub mod Drain
pub mod Timers
pub mod Loop
mod Examples
use cppnetool.Prelude.{ℕ, suc, Bool, true, false, not, ◌||◌, List, [], ◌∷◌, ◌++◌, if◌then◌else◌}

-- `pendingFunctors_` and `callingPendingFunctors_`; `wakeups` is the counter of the descriptor
-- `wakeupFd_`, `woken` tells that `handleRead` has read it and not yet taken the functors, and
-- `running` is what is left of the local vector of `doPendingFunctors`. `ran` and `queued` are the
-- functors that have run and all that were queued, in order. In `queueInLoop` `posting` other threads
-- have pushed a functor and not yet called `wakeup`; `owes` tells that the loop's thread is at this place,
-- and `asking` has the functors that the one that runs has still to queue.
pub record EventLoop : Type 0 where
  pub pending : List ℕ
  pub calling : Bool
  pub wakeups : ℕ
  pub woken : Bool
  pub running : List ℕ
  pub ran : List ℕ
  pub queued : List ℕ
  pub posting : ℕ
  pub owes : Bool
  pub asking : List ℕ

unfoldable pub new : EventLoop
new = record {
  pending = [];
  calling = false;
  wakeups = 0;
  woken = false;
  running = [];
  ran = [];
  queued = [];
  posting = 0;
  owes = false;
  asking = [];
}

-- `write` adds 1 to the counter.
unfoldable pub wakeup : EventLoop → EventLoop
wakeup l = record l { wakeups = suc l.wakeups }

abbrev pub push : ℕ → EventLoop → EventLoop
push f l = record l { pending = l.pending ++ f ∷ []; queued = l.queued ++ f ∷ [] }

-- `queueInLoop` behind the push, in the loop's thread or in another one.
unfoldable pub wake_if : Bool → EventLoop → EventLoop
unfolding wakeup
wake_if in_loop_thread l = if not in_loop_thread || l.calling then wakeup l else l

-- `queueInLoop` with no other thread in between.
unfoldable pub queue_in_loop : Bool → ℕ → EventLoop → EventLoop
unfolding wake_if
queue_in_loop in_loop_thread f l = wake_if in_loop_thread (push f l)

-- What a functor queues when it runs.
unfoldable pub queue_all : List ℕ → EventLoop → EventLoop
queue_all [] l = l
queue_all (f ∷ fs) l = queue_all fs (queue_in_loop true f l)

-- The beginning of the call of one functor.
unfoldable pub begin_functor : (ℕ → List ℕ) → ℕ → List ℕ → EventLoop → EventLoop
begin_functor behaviour f rest l = record l {
  running = rest;
  ran = l.ran ++ f ∷ [];
  asking = behaviour f;
}

-- A call of one functor with no other thread in between, which is behind the index of the loop of `doPendingFunctors` from then on.
unfoldable pub run_functor : (ℕ → List ℕ) → ℕ → List ℕ → EventLoop → EventLoop
run_functor behaviour f rest l =
    queue_all (behaviour f) (record l { running = rest; ran = l.ran ++ f ∷ [] })

-- `runInLoop`: called at once in the loop's thread, queued in another one.
unfoldable pub run_in_loop : (ℕ → List ℕ) → Bool → ℕ → EventLoop → EventLoop
run_in_loop behaviour in_loop_thread f l =
    if in_loop_thread
    then queue_all (behaviour f) (record l { ran = l.ran ++ f ∷ []; queued = l.queued ++ f ∷ [] })
    else queue_in_loop false f l

-- The read of `handleRead`, which sets the counter to 0.
unfoldable pub read_wakeup : EventLoop → EventLoop
read_wakeup l = record l { wakeups = 0; woken = true }

-- The beginning of `doPendingFunctors`, up to the swap.
unfoldable pub take_functors : EventLoop → EventLoop
take_functors l = record l { calling = true; woken = false; running = l.pending; pending = [] }

-- The end of `doPendingFunctors`.
unfoldable pub finish : EventLoop → EventLoop
finish l = record l { calling = false }

-- The loop of `doPendingFunctors`, with no other thread in between.
unfoldable pub run_each : (ℕ → List ℕ) → List ℕ → EventLoop → EventLoop
run_each behaviour [] l = l
run_each behaviour (f ∷ fs) l = run_each behaviour fs (run_functor behaviour f fs l)

unfoldable pub do_pending_functors : (ℕ → List ℕ) → EventLoop → EventLoop
do_pending_functors behaviour l =
    let taken = take_functors l in finish (run_each behaviour taken.running taken)

unfoldable pub handle_read : (ℕ → List ℕ) → EventLoop → EventLoop
handle_read behaviour l = do_pending_functors behaviour (read_wakeup l)
