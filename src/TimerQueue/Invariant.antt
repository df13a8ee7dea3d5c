-- ===== src/TimerQueue/Invariant.antt =====
-- The two indexes of the timer queue and the timers that they lead to.
use cppnetool.Prelude.{ℕ, ◌<◌, ◌≡◌, Bool, true, List, Option, some, length}
use cppnetool.SortedSet.{Pair, mem}
use cppnetool.SortedSet.Laws.{IsSorted}
use cppnetool.Timestamp.{Timestamp}
use cppnetool.TimerQueue.{Timer, TimerQueue, max_address}

-- The entry leads to a timer with that expiration, which is also in the other index.
pub record Scheduled (q : TimerQueue) (time p : ℕ) : Type 0 where
  pub timer : Timer
  pub at : q.objects p ≡ some timer
  pub expiration_eq : timer.expiration ≡ time
  pub in_active : mem (p, timer.sequence) q.active ≡ true
  pub address : p < max_address

pub record Active (q : TimerQueue) (p sequence : ℕ) : Type 0 where
  pub timer : Timer
  pub at : q.objects p ≡ some timer
  pub sequence_eq : timer.sequence ≡ sequence
  pub in_timers : mem (timer.expiration, p) q.timers ≡ true

pub record IsValid (q : TimerQueue) : Type 0 where
  pub timers_sorted : IsSorted q.timers
  pub active_sorted : IsSorted q.active
  pub sizes : length q.timers ≡ length q.active
  pub scheduled : (time p : ℕ) → mem (time, p) q.timers ≡ true → Scheduled q time p
  pub actives : (p sequence : ℕ) → mem (p, sequence) q.active ≡ true → Active q p sequence

-- The invariant says nothing of the other fields.
pub same_indexes-IsValid :
    (q : TimerQueue) (canceling : List Pair) (calling : Bool) (alarm : Option Timestamp)
    → IsValid q
    → IsValid (record q { canceling = canceling; calling = calling; alarm = alarm })
same_indexes-IsValid q canceling calling alarm v = record {
  timers_sorted = v.timers_sorted;
  active_sorted = v.active_sorted;
  sizes = v.sizes;
  scheduled = λ time p h.
      let o = v.scheduled time p h in
      record {
        timer = o.timer;
        at = o.at;
        expiration_eq = o.expiration_eq;
        in_active = o.in_active;
        address = o.address;
      };
  actives = λ p k h.
      let o = v.actives p k h in
      record { timer = o.timer; at = o.at; sequence_eq = o.sequence_eq; in_timers = o.in_timers };
}
