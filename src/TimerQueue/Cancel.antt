-- ===== src/TimerQueue/Cancel.antt =====
-- `cancelInLoop`.
use cppnetool.Prelude.{
  ℕ, ◌-◌, ◌≡◌, Bool, true, false, ◌||◌, none, arith, length, ◌==◌, if◌then◌else◌, update,
}
use cppnetool.Prelude.Result.{ok}
use cppnetool.SortedSet.{mem, insert, erase}
use cppnetool.SortedSet.Laws.{mem-insert, mem-erase, erase-IsSorted, length-erase}
use cppnetool.TimerQueue.{TimerQueue, cancel_in_loop, note_canceling}
use cppnetool.TimerQueue.Invariant.{Scheduled, Active, IsValid, same_indexes-IsValid}

module _ (p k : ℕ) (q : TimerQueue) (v : IsValid q) (there : mem (p, k) q.active ≡ true) where
  pub own : Active q p k
  own = v.actives p k there

  abbrev pub removed : TimerQueue
  removed = record q {
    timers = erase (own.timer.expiration, p) q.timers;
    objects = update q.objects p none;
    active = erase (p, k) q.active;
  }

  sizes : length removed.timers ≡ length removed.active
  sizes = ground (
    arith,
    v.sizes,
    there,
    own.in_timers,
    length-erase (own.timer.expiration, p) q.timers,
    length-erase (p, k) q.active,
  )

  scheduled : (time r : ℕ) → mem (time, r) removed.timers ≡ true → Scheduled removed time r
  scheduled time r h =
      let kept = mem-erase (time, r) (own.timer.expiration, p) q.timers v.timers_sorted in
      let o = v.scheduled time r (ground (arith, kept, h)) in
      let other : (r == p) ≡ false = ground (arith, kept, h, o.at, own.at, o.expiration_eq) in
      record {
        timer = o.timer;
        at = rw other o.at;
        expiration_eq = o.expiration_eq;
        in_active = ground (
          arith,
          other,
          o.in_active,
          mem-erase (r, o.timer.sequence) (p, k) q.active v.active_sorted,
        );
        address = o.address;
      }

  actives : (r j : ℕ) → mem (r, j) removed.active ≡ true → Active removed r j
  actives r j h =
      let kept = mem-erase (r, j) (p, k) q.active v.active_sorted in
      let o = v.actives r j (ground (arith, kept, h)) in
      let other : (r == p) ≡ false =
        ground (arith, kept, h, o.at, own.at, o.sequence_eq, own.sequence_eq) in
      record {
        timer = o.timer;
        at = rw other o.at;
        sequence_eq = o.sequence_eq;
        in_timers = ground (
          arith,
          other,
          o.in_timers,
          mem-erase (o.timer.expiration, r) (own.timer.expiration, p) q.timers v.timers_sorted,
        );
      }

  pub removed-IsValid : IsValid removed
  removed-IsValid = record {
    timers_sorted = erase-IsSorted (own.timer.expiration, p) q.timers v.timers_sorted;
    active_sorted = erase-IsSorted (p, k) q.active v.active_sorted;
    sizes = sizes;
    scheduled = scheduled;
    actives = actives;
  }

  pub cancel_in_loop-removed : cancel_in_loop (p, k) q ≡ ok removed
  unfolding cancel_in_loop
  cancel_in_loop-removed = ground (arith, there, own.at, own.in_timers, v.sizes, sizes)

  -- `cancelInLoop` of an active timer fails no assertion: the timer is deleted and in neither index
  -- any more, and the indexes stay sorted and agree.
  pub cancel_active_lem :
      (q' : TimerQueue) × (cancel_in_loop (p, k) q ≡ ok q')
      × IsValid q'
      × (mem (p, k) q'.active ≡ false)
      × (q'.objects p ≡ none)
      × (length q'.timers ≡ length q.timers - 1)
  cancel_active_lem = (
    removed,
    cancel_in_loop-removed,
    removed-IsValid,
    rw (mem-erase (p, k) (p, k) q.active v.active_sorted) (ground arith),
    ground arith,
    ground (arith, own.in_timers, length-erase (own.timer.expiration, p) q.timers),
  )

-- `cancelInLoop` of a timer that is not active leaves both indexes and every timer as they are; while
-- the callbacks of expired timers run, the timer is noted as cancelled.
pub cancel_inactive_lem :
    (p k : ℕ) (q : TimerQueue)
    → IsValid q
    → mem (p, k) q.active ≡ false
    → (q' : TimerQueue) × (cancel_in_loop (p, k) q ≡ ok q')
      × IsValid q'
      × (q'.timers ≡ q.timers)
      × (q'.objects ≡ q.objects)
      × (mem (p, k) q'.canceling ≡ (q.calling || mem (p, k) q.canceling))
unfolding cancel_in_loop
cancel_inactive_lem p k q v gone = (
  note_canceling (p, k) q,
  ground (arith, gone, v.sizes),
  noting q.calling,
  ground arith,
  ground arith,
  ground (arith, mem-insert (p, k) (p, k) q.canceling),
)
  where
    noting :
        (b : Bool) → IsValid (if b then record q { canceling = insert (p, k) q.canceling } else q)
    noting true = same_indexes-IsValid q (insert (p, k) q.canceling) q.calling q.alarm v
    noting false = v
