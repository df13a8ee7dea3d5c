-- ===== src/TimerQueue/Deactivate.antt =====
-- The loop of `getExpired` that takes the expired timers out of the second index.
use cppnetool.Prelude.{
  ℕ, ◌+◌, ◌≡◌, refl, sym, ap, ◌∙◌, inl, inr, true, false, not, ◌&&◌, List, [], ◌∷◌, some, arith,
  length, ◌==◌, Bool-cases,
}
use cppnetool.Prelude.Result.{ok}
use cppnetool.SortedSet.{Pair, mem, erase, pair_eqb}
use cppnetool.SortedSet.Laws.{IsSorted, Above, mem-erase, erase-IsSorted, length-erase, length-pos}
use cppnetool.TimerQueue.{Timer, TimerQueue, deactivate}

-- Each entry leads to a timer of its expiration that is active.
abbrev pub Ready : TimerQueue → List Pair → Type 0
Ready q [] = Unit {0}
Ready q (e ∷ es) =
    ((t : Timer) × (q.objects e.1 ≡ some t)
      × (t.expiration ≡ e.0)
      × (mem (e.1, t.sequence) q.active ≡ true))
    × Ready q es

-- The active timers after the loop: those of the entries are gone, all others stay.
pub record Deactivated (es : List Pair) (q : TimerQueue) (active' : List Pair) : Type 0 where
  pub sorted : IsSorted active'
  pub count : length active' + length es ≡ length q.active
  pub shrinks : (x : Pair) → mem x active' ≡ true → mem x q.active ≡ true
  pub gone :
      (e : Pair) (t : Timer)
      → mem e es ≡ true
      → q.objects e.1 ≡ some t
      → mem (e.1, t.sequence) active' ≡ false
  pub kept :
      (r k : ℕ)
      → ((time : ℕ) → mem (time, r) es ≡ false)
      → mem (r, k) q.active ≡ true
      → mem (r, k) active' ≡ true

abbrev without : Pair → TimerQueue → TimerQueue
without x q = record q { active = erase x q.active }

-- Taking one timer out leaves the entries behind it ready, since they lead to other timers.
Ready-without :
    (e : Pair) (t : Timer) (q : TimerQueue) (es : List Pair)
    → IsSorted q.active
    → q.objects e.1 ≡ some t
    → t.expiration ≡ e.0
    → Above e es
    → Ready q es
    → Ready (without (e.1, t.sequence) q) es
Ready-without e t q [] s at due a r = tt
Ready-without e t q (d ∷ es) s at due (later, a) ((u, u_at, u_due, u_active), r) =
    let other : (d.1 == e.1) ≡ false = ground (arith, later, at, due, u_at, u_due) in
    let kept = mem-erase (d.1, u.sequence) (e.1, t.sequence) q.active s in
    ((u, u_at, u_due, ground (arith, kept, other, u_active)), Ready-without e t q es s at due a r)

-- One round of the loop, and the rounds after it.
module _ (e : Pair) (t : Timer) (q : TimerQueue) (es : List Pair) (active' : List Pair)
    (s : IsSorted q.active) (at : q.objects e.1 ≡ some t)
    (active : mem (e.1, t.sequence) q.active ≡ true)
    (d : Deactivated es (without (e.1, t.sequence) q) active') where
  abbrev id : Pair
  id = (e.1, t.sequence)

  erased : (x : Pair) → mem x (erase id q.active) ≡ (mem x q.active && not (pair_eqb x id))
  erased x = mem-erase x id q.active s

  id_gone : mem id active' ≡ false
  id_gone = elim (Bool-cases (mem id active')) [
    | inl there ↦ absurd (ground (arith, d.shrinks id there, erased id))
    | inr gone ↦ gone
  ]

  both_gone :
      (x : Pair) (u : Timer)
      → mem x (e ∷ es) ≡ true
      → q.objects x.1 ≡ some u
      → mem (x.1, u.sequence) active' ≡ false
  unfolding mem
  both_gone x u h at' = elim (Bool-cases (pair_eqb x e)) [
    | inl first ↦
        let same : x.1 ≡ e.1 = ground (arith, first) in
        let timers : some u ≡ some t = sym at' ∙ ap q.objects same ∙ at in
        let ids : (x.1, u.sequence) ≡ id = cc (same, timers) in
        ap (λ y. mem y active') ids ∙ id_gone
    | inr later ↦ d.gone x u (ground (arith, h, later)) at'
  ]

  others_kept :
      (r k : ℕ)
      → ((time : ℕ) → mem (time, r) (e ∷ es) ≡ false)
      → mem (r, k) q.active ≡ true
      → mem (r, k) active' ≡ true
  unfolding mem
  others_kept r k out there =
      d.kept r k (λ time. ground (arith, out time)) (ground (arith, out e.0, there, erased (r, k)))

  Deactivated-cons : Deactivated (e ∷ es) q active'
  Deactivated-cons = record {
    sorted = d.sorted;
    count = ground (arith, d.count, active, length-erase id q.active, length-pos id q.active);
    shrinks = λ x h. ground (arith, d.shrinks x h, erased x);
    gone = both_gone;
    kept = others_kept;
  }

pub deactivate_lem :
    (es : List Pair) (q : TimerQueue)
    → IsSorted q.active
    → IsSorted es
    → Ready q es
    → (active' : List Pair) × (deactivate es q ≡ ok (record q { active = active' }))
      × Deactivated es q active'
unfolding deactivate mem
deactivate_lem [] q s se r = (
  q.active,
  refl,
  record {
    sorted = s;
    count = omega arith;
    shrinks = λ x h. h;
    gone = λ e t h at. absurd (cc);
    kept = λ r k h there. there;
  },
)
deactivate_lem (e ∷ es) q s (a, se) ((t, at, due, active), r) =
    let (active', eq, d) =
      deactivate_lem es (without (e.1, t.sequence) q) (erase-IsSorted (e.1, t.sequence) q.active s)
        se (Ready-without e t q es s at due a r) in
    (active', rw (at, active, deactivate) eq, Deactivated-cons e t q es active' s at active d)
