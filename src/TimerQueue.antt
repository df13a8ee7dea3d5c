-- ===== src/TimerQueue.antt =====
-- cppnetool/net/Timer.h, Timer.cc, TimerId.h, TimerQueue.h and TimerQueue.cc: timers ordered by
-- expiration, with an index by timer for `cancel`. All of it runs in the loop's thread, where
-- `addTimer` and `cancel` call `addTimerInLoop` and `cancelInLoop` at once.
pub mod Invariant
pub mod Insert
pub mod Cancel
pub mod Deactivate
pub mod Expire
pub mod Waiting
pub mod Callbacks
pub mod Outcome
pub mod Reset
pub mod Round
mod Examples
use cppnetool.Prelude.{
  ℕ, ◌+◌, ◌-◌, ◌*◌, ◌/◌, ◌%◌, ◌^◌, Bool, true, false, not, ◌&&◌, ◌||◌, Option, none, some, List, [],
  ◌∷◌, ltb, ◌==◌, if◌then◌else◌, length, update,
}
use cppnetool.Prelude.Result.{Result, ok, err, invalid_access, check, need, ◌>>=◌, ◌>>◌}
use cppnetool.SortedSet.{Pair, mem, insert, erase, before, from}
use cppnetool.Timestamp.{Timestamp, Seconds, add_time, invalid, valid, micro_seconds_per_second}

-- `Timer`, without its callback, which is known by the timer's address.
pub record Timer : Type 0 where
  pub expiration : Timestamp
  pub interval : Seconds
  pub repeat : Bool
  pub sequence : ℕ

-- The constructor; `sequence` is what `s_numCreated_.incrementAndGet()` returns.
abbrev pub new_timer : Timestamp → Seconds → ℕ → Timer
new_timer when interval sequence = record {
  expiration = when;
  interval = interval;
  repeat = interval.positive;
  sequence = sequence;
}

unfoldable pub restart : Timestamp → Timer → Timer
restart now t =
    if t.repeat
    then record t { expiration = add_time now t.interval }
    else record t { expiration = invalid }

-- What `timerfd_settime` is told: seconds and nanoseconds from now, at least 100 microseconds.
unfoldable pub how_much_time_from_now : Timestamp → Timestamp → ℕ × ℕ
how_much_time_from_now when now =
    let left = when - now in
    let microseconds = if ltb left 100 then 100 else left in
    (microseconds / micro_seconds_per_second, (microseconds % micro_seconds_per_second) * 1000)

-- `timers_`, `activeTimers_`, `cancelingTimers_` and `callingExpiredTimers_`; `objects` has the
-- timer at each address that is allocated, and `alarm` the expiration that the timer descriptor
-- was last set for. An entry of `timers` is (expiration, address), one of `active` (address,
-- sequence).
pub record TimerQueue : Type 0 where
  pub timers : List Pair
  pub active : List Pair
  pub canceling : List Pair
  pub calling : Bool
  pub objects : ℕ → Option Timer
  pub alarm : Option Timestamp

-- `UINTPTR_MAX`
abbrev pub max_address : ℕ
max_address = 2 ^ 64 - 1

abbrev pub earlier_than_first : Timestamp → List Pair → Bool
earlier_than_first when [] = true
earlier_than_first when (e ∷ es) = ltb when e.0

abbrev pub sizes_agree : TimerQueue → Bool
sizes_agree q = length q.timers == length q.active

-- Whether the first expiration changed, and the queue.
unfoldable pub insert_timer : ℕ → TimerQueue → Result (Bool × TimerQueue)
insert_timer p q = do
  check (sizes_agree q)
  t ← need (q.objects p)
  let earliest_changed = earlier_than_first t.expiration q.timers
  check (not (mem (t.expiration, p) q.timers))
  check (not (mem (p, t.sequence) q.active))
  let q' : TimerQueue = record q {
    timers = insert (t.expiration, p) q.timers;
    active = insert (p, t.sequence) q.active;
  }
  check (sizes_agree q')
  ok (earliest_changed, q')

abbrev pub reset_timerfd : Timestamp → TimerQueue → TimerQueue
reset_timerfd expiration q = record q { alarm = some expiration }

unfoldable pub add_timer_in_loop : ℕ → TimerQueue → Result TimerQueue
unfolding insert_timer
add_timer_in_loop p q = do
  (earliest_changed, q') ← insert_timer p q
  t ← need (q'.objects p)
  ok (if earliest_changed then reset_timerfd t.expiration q' else q')

-- `addTimer`, with the address and the sequence number of the new timer, which are its `TimerId`.
unfoldable pub add_timer : Timestamp → Seconds → ℕ → ℕ → TimerQueue → Result (Pair × TimerQueue)
add_timer when interval p sequence q = do
  let timer = new_timer when interval sequence
  q' ← add_timer_in_loop p (record q { objects = update q.objects p (some timer) })
  ok ((p, sequence), q')

-- `cancelInLoop` of a `TimerId`, which holds an address and a sequence number.
unfoldable pub cancel_active : Pair → TimerQueue → Result TimerQueue
cancel_active id q = do
  t ← need (q.objects id.0)
  check (mem (t.expiration, id.0) q.timers)
  ok (record q {
    timers = erase (t.expiration, id.0) q.timers;
    objects = update q.objects id.0 none;
    active = erase id q.active;
  })

abbrev pub note_canceling : Pair → TimerQueue → TimerQueue
note_canceling id q = if q.calling then record q { canceling = insert id q.canceling } else q

unfoldable pub cancel_in_loop : Pair → TimerQueue → Result TimerQueue
unfolding cancel_active
cancel_in_loop id q = do
  check (sizes_agree q)
  q' ← if mem id q.active then cancel_active id q else ok (note_canceling id q)
  check (sizes_agree q')
  ok q'

-- The loop of `getExpired` over the entries that it took out.
unfoldable pub deactivate : List Pair → TimerQueue → Result TimerQueue
deactivate [] q = ok q
deactivate (e ∷ es) q = do
  t ← need (q.objects e.1)
  check (mem (e.1, t.sequence) q.active)
  deactivate es (record q { active = erase (e.1, t.sequence) q.active })

-- `assert(it == timers_.end() || now < it->first)`
abbrev pub all_later : Timestamp → List Pair → Bool
all_later now [] = true
all_later now (e ∷ es) = ltb now e.0

unfoldable pub get_expired : Timestamp → TimerQueue → Result (List Pair × TimerQueue)
unfolding deactivate
get_expired now q = do
  let sentry : Pair = (now, max_address)
  let expired = before sentry q.timers
  let rest = from sentry q.timers
  check (all_later now rest)
  q' ← deactivate expired (record q { timers = rest })
  check (sizes_agree q')
  ok (expired, q')

-- A repeating timer goes back with its next expiration.
unfoldable pub put_back : Timestamp → ℕ → Timer → TimerQueue → Result TimerQueue
put_back now p t q = do
  (_, q') ← insert_timer p (record q { objects = update q.objects p (some (restart now t)) })
  ok q'

-- One round of `reset`: a repeating timer that was not cancelled meanwhile is put back, any other
-- is deleted.
unfoldable pub reset_one : Timestamp → Pair → TimerQueue → Result TimerQueue
reset_one now e q = do
  t ← need (q.objects e.1)
  if t.repeat && not (mem (e.1, t.sequence) q.canceling)
      then put_back now e.1 t q
      else ok (record q { objects = update q.objects e.1 none })

unfoldable pub reset_all : Timestamp → List Pair → TimerQueue → Result TimerQueue
unfolding reset_one
reset_all now [] q = ok q
reset_all now (e ∷ es) q = do q' ← reset_one now e q; reset_all now es q'

-- `timers_.begin()->second->expiration()`, or an invalid time.
abbrev pub next_expire : TimerQueue → Result Timestamp
next_expire q = elim q.timers [
  | [] ↦ ok invalid
  | e ∷ es ↦ do t ← need (q.objects e.1); ok t.expiration
]

unfoldable pub reset : List Pair → Timestamp → TimerQueue → Result TimerQueue
unfolding reset_all
reset expired now q = do
  q' ← reset_all now expired q
  next ← next_expire q'
  ok (if valid next then reset_timerfd next q' else q')

-- What a callback asks of the queue: a new timer at an address that was free, or a cancellation.
pub data Request : Type 0 where
  adds : ℕ → Timer → Request
  cancels : Pair → Request

unfoldable pub perform : Request → TimerQueue → Result TimerQueue
unfolding add_timer_in_loop cancel_in_loop
perform (adds p t) q = add_timer_in_loop p (record q { objects = update q.objects p (some t) })
perform (cancels id) q = cancel_in_loop id q

unfoldable pub perform_all : List Request → TimerQueue → Result TimerQueue
unfolding perform
perform_all [] q = ok q
perform_all (r ∷ rs) q = do q' ← perform r q; perform_all rs q'

-- The callbacks of the expired timers, with what the timer at each address asks for.
unfoldable pub run_callbacks : (ℕ → List Request) → List Pair → TimerQueue → Result TimerQueue
unfolding perform_all
run_callbacks behaviour [] q = ok q
run_callbacks behaviour (e ∷ es) q = do
  _ ← need (q.objects e.1)
  q' ← perform_all (behaviour e.1) q
  run_callbacks behaviour es q'

unfoldable pub handle_read : (ℕ → List Request) → Timestamp → TimerQueue → Result TimerQueue
unfolding get_expired run_callbacks reset
handle_read behaviour now q = do
  (expired, q1) ← get_expired now q
  q2 ← run_callbacks behaviour expired (record q1 { calling = true; canceling = [] })
  reset expired now (record q2 { calling = false })
