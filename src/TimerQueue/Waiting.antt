-- ===== src/TimerQueue/Waiting.antt =====
-- What stays as it is while one timer is added, put back or deleted.
use cppnetool.Prelude.{
  ℕ, ◌<◌, ◌≡◌, ◌≢◌, refl, ◌∙◌, inl, inr, Bool, true, false, none, some, List, [], ◌∷◌, arith, ◌==◌,
  if◌then◌else◌, update, Bool-cases,
}
use cppnetool.SortedSet.{Pair, mem}
use cppnetool.SortedSet.Laws.{mem-insert, mem-erase}
use cppnetool.TimerQueue.{Timer, TimerQueue, max_address, reset_timerfd, earlier_than_first}
use cppnetool.TimerQueue.Invariant.{IsValid}
use cppnetool.TimerQueue.Insert.{added, inserted}
use cppnetool.TimerQueue.Cancel.{own, removed}

-- From one queue to the next nothing is changed but the timer at `p`.
pub record Only (p : ℕ) (q q' : TimerQueue) : Type 0 where
  pub objects_same : (r : ℕ) → r ≢ p → q'.objects r ≡ q.objects r
  pub active_same : (r k : ℕ) → r ≢ p → mem (r, k) q'.active ≡ true → mem (r, k) q.active ≡ true
  pub timers_kept :
      (time r : ℕ) → r ≢ p → mem (time, r) q.timers ≡ true → mem (time, r) q'.timers ≡ true
  pub canceling_same : q'.canceling ≡ q.canceling

-- An expired timer that was taken out of both indexes and not yet put back.
pub record Waiting (q : TimerQueue) (p : ℕ) : Type 0 where
  pub timer : Timer
  pub at : q.objects p ≡ some timer
  pub idle : mem (p, timer.sequence) q.active ≡ false
  pub address : p < max_address

pub Only-Waiting : (p r : ℕ) (q q' : TimerQueue) → Only p q q' → r ≢ p → Waiting q r → Waiting q' r
Only-Waiting p r q q' o apart w = record {
  timer = w.timer;
  at = o.objects_same r apart ∙ w.at;
  idle = elim (Bool-cases (mem (r, w.timer.sequence) q'.active)) [
    | inl there ↦ absurd (cc (w.idle, o.active_same r w.timer.sequence apart there))
    | inr free ↦ free
  ];
  address = w.address;
}

-- An address that is free.
pub allocate-IsValid :
    (p : ℕ) (t : Timer) (q : TimerQueue)
    → IsValid q
    → q.objects p ≡ none
    → IsValid (record q { objects = update q.objects p (some t) })
allocate-IsValid p t q v free = record {
  timers_sorted = v.timers_sorted;
  active_sorted = v.active_sorted;
  sizes = v.sizes;
  scheduled = λ time r h.
      let s = v.scheduled time r h in
      let other : (r == p) ≡ false = ground (arith, s.at, free) in
      record {
        timer = s.timer;
        at = rw other s.at;
        expiration_eq = s.expiration_eq;
        in_active = s.in_active;
        address = s.address;
      };
  actives = λ r k h.
      let s = v.actives r k h in
      let other : (r == p) ≡ false = ground (arith, s.at, free) in
      record {
        timer = s.timer;
        at = rw other s.at;
        sequence_eq = s.sequence_eq;
        in_timers = s.in_timers;
      };
}

pub inserted-Only :
    (p : ℕ) (t : Timer) (q : TimerQueue) (v : IsValid q) (at : q.objects p ≡ some t)
    (address : p < max_address) (idle : mem (p, t.sequence) q.active ≡ false)
    → Only p q (inserted p t q v at address idle)
inserted-Only p t q v at address idle = record {
  objects_same = λ r apart. refl;
  active_same = λ r k apart there.
      let other : (r == p) ≡ false = ground (arith, apart) in
      ground (arith, there, other, mem-insert (r, k) (p, t.sequence) q.active);
  timers_kept =
      λ time r apart h. ground (arith, h, mem-insert (time, r) (t.expiration, p) q.timers);
  canceling_same = refl;
}

pub added-Only :
    (p : ℕ) (t : Timer) (q : TimerQueue) (v : IsValid q) (at : q.objects p ≡ some t)
    (address : p < max_address) (idle : mem (p, t.sequence) q.active ≡ false)
    → Only p q (added p t q v at address idle)
added-Only p t q v at address idle = setting (earlier_than_first t.expiration q.timers)
  where
    new : TimerQueue
    new = inserted p t q v at address idle

    o : Only p q new
    o = inserted-Only p t q v at address idle

    setting : (b : Bool) → Only p q (if b then reset_timerfd t.expiration new else new)
    setting true = record {
      objects_same = o.objects_same;
      active_same = o.active_same;
      timers_kept = o.timers_kept;
      canceling_same = refl;
    }
    setting false = o

pub removed-Only :
    (p k : ℕ) (q : TimerQueue) (v : IsValid q) (there : mem (p, k) q.active ≡ true)
    → Only p q (removed p k q v there)
removed-Only p k q v there = record {
  objects_same = λ r apart. let other : (r == p) ≡ false = ground (arith, apart) in rw other refl;
  active_same = λ r j apart h. ground (arith, h, mem-erase (r, j) (p, k) q.active v.active_sorted);
  timers_kept = λ time r apart h.
      let other : (r == p) ≡ false = ground (arith, apart) in
      ground (
        arith,
        h,
        other,
        mem-erase (time, r) ((own p k q v there).timer.expiration, p) q.timers v.timers_sorted,
      );
  canceling_same = refl;
}

pub allocated-Only :
    (p : ℕ) (t : Timer) (q : TimerQueue)
    → Only p q (record q { objects = update q.objects p (some t) })
allocated-Only p t q = record {
  objects_same = λ r apart. let other : (r == p) ≡ false = ground (arith, apart) in rw other refl;
  active_same = λ r k apart h. h;
  timers_kept = λ time r apart h. h;
  canceling_same = refl;
}

-- Every entry leads to a waiting timer.
abbrev pub AllWaiting : List Pair → TimerQueue → Type 0
AllWaiting [] q = Unit {0}
AllWaiting (e ∷ es) q = Waiting q e.1 × AllWaiting es q

pub keeps-AllWaiting :
    (es : List Pair) (q q' : TimerQueue)
    → ((p : ℕ) → Waiting q p → Waiting q' p)
    → AllWaiting es q
    → AllWaiting es q'
keeps-AllWaiting [] q q' keeps w = tt
keeps-AllWaiting (e ∷ es) q q' keeps w = (keeps e.1 w.0, keeps-AllWaiting es q q' keeps w.1)

-- No entry has the address.
abbrev pub NotAt : ℕ → List Pair → Type 0
NotAt p [] = Unit {0}
NotAt p (e ∷ es) = (e.1 ≢ p) × NotAt p es

pub Only-AllWaiting :
    (p : ℕ) (q q' : TimerQueue) (es : List Pair)
    → Only p q q'
    → NotAt p es
    → AllWaiting es q
    → AllWaiting es q'
Only-AllWaiting p q q' [] o n w = tt
Only-AllWaiting p q q' (e ∷ es) o n w =
    (Only-Waiting p e.1 q q' o n.0 w.0, Only-AllWaiting p q q' es o n.1 w.1)
