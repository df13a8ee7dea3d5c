-- ===== src/TimerQueue/Examples.antt =====
-- The timer queue's theorems at a queue of two timers.
use cppnetool.Prelude.{
  ℕ, ◌+◌, ◌-◌, ◌≤◌, ◌⊎◌, ◌≡◌, refl, inl, inr, true, false, List, [], ◌∷◌, ◌++◌, Option, none, some,
  arith, length, ◌==◌, if◌then◌else◌, Bool-cases,
}
use cppnetool.Prelude.Result.{ok}
use cppnetool.SortedSet.{Pair, mem, pair_eqb}
use cppnetool.Timestamp.{Seconds}
use cppnetool.TimerQueue.{
  Request, adds, cancels, Timer, TimerQueue, new_timer, insert_timer, add_timer_in_loop,
  cancel_in_loop, get_expired,
}
use cppnetool.TimerQueue.Invariant.{Scheduled, Active, IsValid}
use cppnetool.TimerQueue.Insert.{insert_timer_lem, add_timer_in_loop_lem}
use cppnetool.TimerQueue.Cancel.{cancel_active_lem}
use cppnetool.TimerQueue.Expire.{AllDue, AllLater, get_expired_lem}
use cppnetool.TimerQueue.Waiting.{Waiting}

abbrev once : Seconds
once = record { positive = false; micros = 0 }

abbrev every_50 : Seconds
every_50 = record { positive = true; micros = 50 }

abbrev objects : ℕ → Option Timer
objects p =
    if p == 7
    then some (new_timer 100 once 1)
    else if p == 9
    then some (new_timer 200 every_50 2)
    else if p == 3
    then some (new_timer 150 every_50 3)
    else none

-- Timer 7 at 100 and timer 9 at 200 are scheduled; timer 3 is only allocated.
abbrev queue : TimerQueue
queue = record {
  timers = (100, 7) ∷ (200, 9) ∷ [];
  active = (7, 1) ∷ (9, 2) ∷ [];
  canceling = [];
  calling = false;
  objects = objects;
  alarm = some 100;
}

scheduled : (time p : ℕ) → mem (time, p) queue.timers ≡ true → Scheduled queue time p
unfolding mem
scheduled time p h = elim (Bool-cases (pair_eqb (time, p) (100, 7))) [
  | inl first ↦ record {
    timer = new_timer 100 once 1;
    at = ground arith;
    expiration_eq = ground arith;
    in_active = ground arith;
    address = ground arith;
  }
  | inr second ↦ record {
    timer = new_timer 200 every_50 2;
    at = ground arith;
    expiration_eq = ground arith;
    in_active = ground arith;
    address = ground arith;
  }
]

actives : (p k : ℕ) → mem (p, k) queue.active ≡ true → Active queue p k
unfolding mem
actives p k h = elim (Bool-cases (pair_eqb (p, k) (7, 1))) [
  | inl first ↦ record {
    timer = new_timer 100 once 1;
    at = ground arith;
    sequence_eq = ground arith;
    in_timers = ground arith;
  }
  | inr second ↦ record {
    timer = new_timer 200 every_50 2;
    at = ground arith;
    sequence_eq = ground arith;
    in_timers = ground arith;
  }
]

queue-IsValid : IsValid queue
queue-IsValid = record {
  timers_sorted = ((refl, tt), (tt, tt));
  active_sorted = ((refl, tt), (tt, tt));
  sizes = refl;
  scheduled = scheduled;
  actives = actives;
}

insert_timer_lem_example :
    (q' : TimerQueue) × (insert_timer 3 queue ≡ ok (false, q'))
    × IsValid q'
    × (mem (150, 3) q'.timers ≡ true)
    × (length q'.timers ≡ 2 + 1)
unfolding mem
insert_timer_lem_example =
    insert_timer_lem 3 (new_timer 150 every_50 3) queue queue-IsValid refl (omega arith) refl

add_timer_in_loop_lem_example :
    (q' : TimerQueue) × (add_timer_in_loop 3 queue ≡ ok q')
    × IsValid q'
    × (mem (150, 3) q'.timers ≡ true)
    × ((AllLater 150 queue.timers × (q'.alarm ≡ some 150))
        ⊎ ((e : Pair) × (mem e queue.timers ≡ true) × (e.0 ≤ 150) × (q'.alarm ≡ some 100)))
unfolding mem
add_timer_in_loop_lem_example =
    add_timer_in_loop_lem 3 (new_timer 150 every_50 3) queue queue-IsValid refl (omega arith) refl

cancel_active_lem_example :
    (q' : TimerQueue) × (cancel_in_loop (7, 1) queue ≡ ok q')
    × IsValid q'
    × (mem (7, 1) q'.active ≡ false)
    × (q'.objects 7 ≡ none)
    × (length q'.timers ≡ 2 - 1)
unfolding mem
cancel_active_lem_example = cancel_active_lem 7 1 queue queue-IsValid refl

get_expired_lem_example :
    (due : List Pair) × (q' : TimerQueue) × (get_expired 100 queue ≡ ok (due, q'))
    × (due ++ q'.timers ≡ queue.timers)
    × AllDue 100 due
    × AllLater 100 q'.timers
    × IsValid q'
    × (q'.objects ≡ queue.objects)
get_expired_lem_example = get_expired_lem 100 queue queue-IsValid

-- Timer 7's callback allocates a timer at address 5 and cancels timer 9.
abbrev requests : ℕ → List Request
requests p = adds 5 (new_timer 130 once 4) ∷ cancels (9, 2) ∷ []
