-- ===== src/TimerQueue/Expire.antt =====
-- `getExpired`: the timers that are due leave both indexes, and no other does.
use cppnetool.Prelude.{
  ℕ, ◌<◌, ◌≤◌, ◌≡◌, refl, sym, ap, ◌∙◌, inl, inr, true, false, not, ◌&&◌, List, [], ◌∷◌, ◌++◌, some,
  arith, length, Bool-cases, length-append,
}
use cppnetool.Prelude.Result.{ok}
use cppnetool.SortedSet.{Pair, mem, before, from, pair_ltb}
use cppnetool.SortedSet.Laws.{
  before-IsSorted, Below, NotBelow, before-from, before-Below, from-NotBelow, from-IsSorted,
  mem-before, mem-from,
}
use cppnetool.Timestamp.{Timestamp}
use cppnetool.TimerQueue.{TimerQueue, max_address, get_expired, deactivate, all_later}
use cppnetool.TimerQueue.Invariant.{Scheduled, Active, IsValid}
use cppnetool.TimerQueue.Deactivate.{Ready, Deactivated, deactivate_lem}

-- Every expiration is at most, or is after, a time.
abbrev pub AllDue : Timestamp → List Pair → Type 0
AllDue now [] = Unit {0}
AllDue now (e ∷ es) = (e.0 ≤ now) × AllDue now es

abbrev pub AllLater : Timestamp → List Pair → Type 0
AllLater now [] = Unit {0}
AllLater now (e ∷ es) = (now < e.0) × AllLater now es

Below-AllDue : (now : Timestamp) (es : List Pair) → Below (now, max_address) es → AllDue now es
Below-AllDue now [] b = tt
Below-AllDue now (e ∷ es) b = (ground (arith, b.0), Below-AllDue now es b.1)

NotBelow-AllLater :
    (now : Timestamp) (es : List Pair)
    → ((e : Pair) → mem e es ≡ true → e.1 < max_address)
    → NotBelow (now, max_address) es
    → AllLater now es
unfolding mem
NotBelow-AllLater now [] a n = tt
NotBelow-AllLater now (e ∷ es) a n =
    let low = a e (ground arith) in
    (ground (arith, n.0, low), NotBelow-AllLater now es (λ x h. a x (ground (arith, h))) n.1)

all_later-AllLater : (now : Timestamp) (es : List Pair) → AllLater now es → all_later now es ≡ true
all_later-AllLater now [] a = refl
all_later-AllLater now (e ∷ es) a = ground (arith, a.0)

module _ (now : Timestamp) (q : TimerQueue) (v : IsValid q) where
  abbrev sentry : Pair
  sentry = (now, max_address)

  abbrev pub expired : List Pair
  expired = before sentry q.timers

  abbrev pub rest : List Pair
  rest = from sentry q.timers

  abbrev cut : TimerQueue
  cut = record q { timers = rest }

  in_expired : (x : Pair) → mem x expired ≡ (mem x q.timers && pair_ltb x sentry)
  in_expired x = mem-before x sentry q.timers v.timers_sorted

  in_rest : (x : Pair) → mem x rest ≡ (mem x q.timers && not (pair_ltb x sentry))
  in_rest x = mem-from x sentry q.timers v.timers_sorted

  Ready-of_mem :
      (es : List Pair) → ((e : Pair) → mem e es ≡ true → mem e q.timers ≡ true) → Ready cut es
  unfolding mem
  Ready-of_mem [] h = tt
  Ready-of_mem (e ∷ es) h =
      let o = v.scheduled e.0 e.1 (h e (ground arith)) in
      (
        (o.timer, o.at, o.expiration_eq, o.in_active),
        Ready-of_mem es (λ x m. h x (ground (arith, m))),
      )

  later : AllLater now rest
  later =
      NotBelow-AllLater now rest
        (λ e h. (v.scheduled e.0 e.1 (ground (arith, h, in_rest e))).address)
        (from-NotBelow sentry q.timers v.timers_sorted)

  -- The index of active timers after `getExpired`.
  deactivated :
      (active' : List Pair) × (deactivate expired cut ≡ ok (record cut { active = active' }))
      × Deactivated expired cut active'
  deactivated =
      deactivate_lem expired cut v.active_sorted (before-IsSorted sentry q.timers v.timers_sorted)
        (Ready-of_mem expired (λ e h. ground (arith, h, in_expired e)))

  module _ (active' : List Pair) (d : Deactivated expired cut active') where
    abbrev left : TimerQueue
    left = record cut { active = active' }

    not_expired :
        (time p : ℕ)
        → mem (time, p) rest ≡ true
        → Scheduled q time p
        → (other : ℕ) → mem (other, p) expired ≡ false
    not_expired time p h o other = elim (Bool-cases (mem (other, p) expired)) [
      | inl there ↦
          let u = v.scheduled other p (ground (arith, there, in_expired (other, p))) in
          let same : some o.timer ≡ some u.timer = sym o.at ∙ u.at in
          let times : time ≡ other = cc (same, o.expiration_eq, u.expiration_eq) in
          absurd (ground (arith, times, there, h, in_expired (time, p), in_rest (time, p)))
      | inr out ↦ out
    ]

    still_there :
        (p k : ℕ)
        → mem (p, k) active' ≡ true
        → (o : Active q p k) → mem (o.timer.expiration, p) rest ≡ true
    still_there p k h o = elim (Bool-cases (mem (o.timer.expiration, p) expired)) [
      | inl there ↦
          absurd
            (ground (arith, h, o.sequence_eq, d.gone (o.timer.expiration, p) o.timer there o.at))
      | inr out ↦ ground (
        arith,
        out,
        o.in_timers,
        in_expired (o.timer.expiration, p),
        in_rest (o.timer.expiration, p),
      )
    ]

    scheduled : (time p : ℕ) → mem (time, p) rest ≡ true → Scheduled left time p
    scheduled time p h =
        let o = v.scheduled time p (ground (arith, h, in_rest (time, p))) in
        record {
          timer = o.timer;
          at = o.at;
          expiration_eq = o.expiration_eq;
          in_active = d.kept p o.timer.sequence (not_expired time p h o) o.in_active;
          address = o.address;
        }

    actives : (p k : ℕ) → mem (p, k) active' ≡ true → Active left p k
    actives p k h =
        let o = v.actives p k (d.shrinks (p, k) h) in
        record {
          timer = o.timer;
          at = o.at;
          sequence_eq = o.sequence_eq;
          in_timers = still_there p k h o;
        }

    left_sizes : length rest ≡ length active'
    left_sizes = omega (
      arith,
      d.count,
      v.sizes,
      length-append expired rest,
      ap length (before-from sentry q.timers),
    )

    left-IsValid : IsValid left
    left-IsValid = record {
      timers_sorted = from-IsSorted sentry q.timers v.timers_sorted;
      active_sorted = d.sorted;
      sizes = left_sizes;
      scheduled = scheduled;
      actives = actives;
    }

-- `getExpired` fails no assertion: it returns the timers due by `now` in the order of their
-- expirations and keeps those after `now`, the two together are the old ones, and what is left of
-- the two indexes is sorted and agrees; no timer is deleted.
pub get_expired_lem :
    (now : Timestamp) (q : TimerQueue)
    → IsValid q
    → (due : List Pair) × (q' : TimerQueue) × (get_expired now q ≡ ok (due, q'))
      × (due ++ q'.timers ≡ q.timers)
      × AllDue now due
      × AllLater now q'.timers
      × IsValid q'
      × (q'.objects ≡ q.objects)
unfolding get_expired
get_expired_lem now q v =
    let (active', eq, d) = deactivated now q v in
    (
      expired now q v,
      left now q v active' d,
      ground (
        arith,
        all_later-AllLater now (rest now q v) (later now q v),
        eq,
        left_sizes now q v active' d,
      ),
      before-from (now, max_address) q.timers,
      Below-AllDue now (expired now q v) (before-Below (now, max_address) q.timers),
      later now q v,
      left-IsValid now q v active' d,
      refl,
    )
