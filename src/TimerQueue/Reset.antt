-- ===== src/TimerQueue/Reset.antt =====
-- `reset`: the expired timers that repeat and were not cancelled go back, the others are deleted.
use cppnetool.Prelude.{ℕ, ◌≡◌, ◌⊎◌, false, some, arith, ◌==◌, update}
use cppnetool.Prelude.Result.{ok}
use cppnetool.SortedSet.{mem}
use cppnetool.Timestamp.{Timestamp, valid}
use cppnetool.TimerQueue.{Timer, TimerQueue, restart, next_expire}
use cppnetool.TimerQueue.Invariant.{IsValid}
use cppnetool.TimerQueue.Waiting.{Waiting}
use cppnetool.Prelude.{Option}
use cppnetool.TimerQueue.Outcome.{Outcome}

-- No entry of the two indexes leads to a timer that is not active, so it may be changed or deleted.
pub update-IsValid :
    (p : ℕ) (t : Timer) (o : Option Timer) (q : TimerQueue)
    → IsValid q
    → q.objects p ≡ some t
    → mem (p, t.sequence) q.active ≡ false
    → IsValid (record q { objects = update q.objects p o })
update-IsValid p t o q v at idle = record {
  timers_sorted = v.timers_sorted;
  active_sorted = v.active_sorted;
  sizes = v.sizes;
  scheduled = λ time r h.
      let s = v.scheduled time r h in
      let other : (r == p) ≡ false = ground (arith, s.at, s.in_active, at, idle) in
      record {
        timer = s.timer;
        at = rw other s.at;
        expiration_eq = s.expiration_eq;
        in_active = s.in_active;
        address = s.address;
      };
  actives = λ r k h.
      let s = v.actives r k h in
      let other : (r == p) ≡ false = ground (arith, s.at, s.sequence_eq, h, at, idle) in
      record {
        timer = s.timer;
        at = rw other s.at;
        sequence_eq = s.sequence_eq;
        in_timers = s.in_timers;
      };
}

pub sequence-restart : (now : Timestamp) (t : Timer) → (restart now t).sequence ≡ t.sequence
unfolding restart
sequence-restart now t = ground arith

-- The alarm is set for the first timer that is left, where its time is valid.
abbrev pub AlarmFollows : TimerQueue → Type 0
AlarmFollows q =
    (next : Timestamp) × (next_expire q ≡ ok next) × ((valid next ≡ false) ⊎ (q.alarm ≡ some next))
