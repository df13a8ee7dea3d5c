-- ===== src/TimerQueue/Insert.antt =====
-- `insert` and `addTimerInLoop`.
use cppnetool.Prelude.{
  ℕ, ◌+◌, ◌<◌, ◌≤◌, ◌⊎◌, List, [], ◌∷◌, ltb, ◌≡◌, refl, sym, ◌∙◌, inl, inr, Bool, true, false, some,
  arith, length, if◌then◌else◌, Bool-cases,
}
use cppnetool.Prelude.Result.{ok}
use cppnetool.SortedSet.{Pair, mem, insert, pair_eqb}
use cppnetool.SortedSet.Laws.{Above, IsSorted, mem-insert, insert-IsSorted, length-insert}
use cppnetool.TimerQueue.{
  Timer, TimerQueue, max_address, insert_timer, earlier_than_first, add_timer_in_loop,
  reset_timerfd,
}
use cppnetool.TimerQueue.Expire.{AllLater}
use cppnetool.TimerQueue.Invariant.{Scheduled, Active, IsValid, same_indexes-IsValid}

module _ (p : ℕ) (t : Timer) (q : TimerQueue) (v : IsValid q) (at : q.objects p ≡ some t)
    (address : p < max_address) (idle : mem (p, t.sequence) q.active ≡ false) where
  abbrev pub inserted : TimerQueue
  inserted = record q {
    timers = insert (t.expiration, p) q.timers;
    active = insert (p, t.sequence) q.active;
  }

  not_scheduled : mem (t.expiration, p) q.timers ≡ false
  not_scheduled = elim (Bool-cases (mem (t.expiration, p) q.timers)) [
    | inl there ↦
        let o = v.scheduled t.expiration p there in
        let same : some o.timer ≡ some t = sym o.at ∙ at in
        absurd (ground (arith, same, o.in_active, idle))
    | inr free ↦ free
  ]

  sizes : length inserted.timers ≡ length inserted.active
  sizes = ground (
    arith,
    v.sizes,
    not_scheduled,
    idle,
    length-insert (t.expiration, p) q.timers v.timers_sorted,
    length-insert (p, t.sequence) q.active v.active_sorted,
  )

  scheduled : (time r : ℕ) → mem (time, r) inserted.timers ≡ true → Scheduled inserted time r
  scheduled time r h = elim (Bool-cases (pair_eqb (time, r) (t.expiration, p))) [
    | inl new ↦ record {
      timer = t;
      at = ground (arith, at, new);
      expiration_eq = ground (arith, new);
      in_active = rw (mem-insert (r, t.sequence) (p, t.sequence) q.active) (ground (arith, new));
      address = ground (arith, new, address);
    }
    | inr old ↦
        let o =
          v.scheduled time r
            (ground (arith, old, h, mem-insert (time, r) (t.expiration, p) q.timers)) in
        record {
          timer = o.timer;
          at = o.at;
          expiration_eq = o.expiration_eq;
          in_active =
              ground
                (arith, o.in_active, mem-insert (r, o.timer.sequence) (p, t.sequence) q.active);
          address = o.address;
        }
  ]

  actives : (r k : ℕ) → mem (r, k) inserted.active ≡ true → Active inserted r k
  actives r k h = elim (Bool-cases (pair_eqb (r, k) (p, t.sequence))) [
    | inl new ↦ record {
      timer = t;
      at = ground (arith, at, new);
      sequence_eq = ground (arith, new);
      in_timers =
          rw (mem-insert (t.expiration, r) (t.expiration, p) q.timers) (ground (arith, new));
    }
    | inr old ↦
        let o =
          v.actives r k (ground (arith, old, h, mem-insert (r, k) (p, t.sequence) q.active)) in
        record {
          timer = o.timer;
          at = o.at;
          sequence_eq = o.sequence_eq;
          in_timers =
              ground
                (arith, o.in_timers, mem-insert (o.timer.expiration, r) (t.expiration, p) q.timers);
        }
  ]

  pub inserted-IsValid : IsValid inserted
  inserted-IsValid = record {
    timers_sorted = insert-IsSorted (t.expiration, p) q.timers v.timers_sorted;
    active_sorted = insert-IsSorted (p, t.sequence) q.active v.active_sorted;
    sizes = sizes;
    scheduled = scheduled;
    actives = actives;
  }

  pub insert_timer-eq : insert_timer p q ≡ ok (earlier_than_first t.expiration q.timers, inserted)
  unfolding insert_timer
  insert_timer-eq = ground (arith, v.sizes, at, not_scheduled, idle, sizes)

  setting-IsValid :
      (b : Bool) → IsValid (if b then reset_timerfd t.expiration inserted else inserted)
  setting-IsValid true =
      same_indexes-IsValid inserted q.canceling q.calling (some t.expiration) inserted-IsValid
  setting-IsValid false = inserted-IsValid

  -- The queue that `addTimerInLoop` leaves.
  abbrev pub added : TimerQueue
  added =
      if earlier_than_first t.expiration q.timers
      then reset_timerfd t.expiration inserted
      else inserted

  pub added-IsValid : IsValid added
  added-IsValid = setting-IsValid (earlier_than_first t.expiration q.timers)

  pub add_timer_in_loop-eq : add_timer_in_loop p q ≡ ok added
  unfolding add_timer_in_loop
  add_timer_in_loop-eq = rw (insert_timer-eq, at, add_timer_in_loop) refl

-- `insert` of an allocated timer that is not active fails no assertion: the timer is in both
-- indexes, in the place of its expiration, the indexes stay sorted and agree, and the result says
-- whether it expires before all others.
pub insert_timer_lem :
    (p : ℕ) (t : Timer) (q : TimerQueue)
    → IsValid q
    → q.objects p ≡ some t
    → p < max_address
    → mem (p, t.sequence) q.active ≡ false
    → (q' : TimerQueue) × (insert_timer p q ≡ ok (earlier_than_first t.expiration q.timers, q'))
      × IsValid q'
      × (mem (t.expiration, p) q'.timers ≡ true)
      × (length q'.timers ≡ length q.timers + 1)
insert_timer_lem p t q v at address idle = (
  inserted p t q v at address idle,
  insert_timer-eq p t q v at address idle,
  inserted-IsValid p t q v at address idle,
  rw (mem-insert (t.expiration, p) (t.expiration, p) q.timers) (ground arith),
  ground (
    arith,
    not_scheduled p t q v at address idle,
    length-insert (t.expiration, p) q.timers v.timers_sorted,
  ),
)

Above-AllLater : (now : ℕ) (e : Pair) (es : List Pair) → now < e.0 → Above e es → AllLater now es
Above-AllLater now e [] h a = tt
Above-AllLater now e (f ∷ es) h a = (ground (arith, h, a.0), Above-AllLater now e es h a.1)

-- What the test of `insert` tells of sorted entries.
earlier_than_first-cases :
    (when : ℕ) (es : List Pair)
    → IsSorted es
    → ((earlier_than_first when es ≡ true) × AllLater when es)
      ⊎ ((earlier_than_first when es ≡ false) × ((e : Pair) × (mem e es ≡ true) × (e.0 ≤ when)))
unfolding mem
earlier_than_first-cases when [] s = inl (refl, tt)
earlier_than_first-cases when (e ∷ es) s = elim (Bool-cases (ltb when e.0)) [
  | inl first ↦
      let h : when < e.0 = ground (arith, first) in inl (first, (h, Above-AllLater when e es h s.0))
  | inr later ↦ inr (later, (e, ground arith, ground (arith, later)))
]

-- `addTimerInLoop` of an allocated timer that is not active, in a valid queue, fails no assertion: the
-- queue stays valid and has the timer, and the alarm is set for the timer where it expires before all
-- others, and is as before where some other one expires no later.
pub add_timer_in_loop_lem :
    (p : ℕ) (t : Timer) (q : TimerQueue)
    → IsValid q
    → q.objects p ≡ some t
    → p < max_address
    → mem (p, t.sequence) q.active ≡ false
    → (q' : TimerQueue) × (add_timer_in_loop p q ≡ ok q')
      × IsValid q'
      × (mem (t.expiration, p) q'.timers ≡ true)
      × ((AllLater t.expiration q.timers × (q'.alarm ≡ some t.expiration))
          ⊎ ((e : Pair) × (mem e q.timers ≡ true) × (e.0 ≤ t.expiration) × (q'.alarm ≡ q.alarm)))
add_timer_in_loop_lem p t q v at address idle = (
  added p t q v at address idle,
  add_timer_in_loop-eq p t q v at address idle,
  added-IsValid p t q v at address idle,
  ground (arith, mem-insert (t.expiration, p) (t.expiration, p) q.timers),
  elim (earlier_than_first-cases t.expiration q.timers v.timers_sorted) [
    | inl (first, later) ↦ inl (later, rw first refl)
    | inr (late, (e, there, due)) ↦ inr (e, there, due, rw late refl)
  ],
)
