-- ===== src/TimerQueue/Callbacks.antt =====
-- What the callbacks of expired timers may do to the queue: add timers and cancel any.
use cppnetool.Prelude.{
  ℕ, ◌<◌, ◌≡◌, ◌≢◌, refl, ap, ◌∙◌, inl, inr, subst, Bool, true, false, none, some, List, [], ◌∷◌,
  arith, ◌==◌, if◌then◌else◌, update, Bool-cases,
}
use cppnetool.Prelude.Result.{Result, ok, err, ◌>>=◌}
use cppnetool.SortedSet.{Pair, mem, insert}
use cppnetool.TimerQueue.{
  Timer, TimerQueue, max_address, add_timer_in_loop, cancel_in_loop, Request, adds, cancels,
  perform, perform_all, run_callbacks,
}
use cppnetool.TimerQueue.Invariant.{Active, IsValid, same_indexes-IsValid}
use cppnetool.TimerQueue.Insert.{added, added-IsValid, add_timer_in_loop-eq}
use cppnetool.TimerQueue.Cancel.{own, removed, removed-IsValid, cancel_in_loop-removed}
use cppnetool.TimerQueue.Waiting.{
  Waiting, Only-Waiting, allocate-IsValid, allocated-Only, added-Only, removed-Only, AllWaiting,
  keeps-AllWaiting,
}

-- A callback allocates a timer where none is; it may cancel whatever it likes.
abbrev pub CanPerform : Request → TimerQueue → Type 0
CanPerform (adds p t) q = (q.objects p ≡ none) × (p < max_address)
CanPerform (cancels id) q = Unit {0}

-- What holds of the queue that a step leaves.
abbrev pub Afterwards : Result TimerQueue → (TimerQueue → Type 0) → Type 0
Afterwards (ok q) P = P q
Afterwards (err e) P = Unit {0}

abbrev pub CanPerformAll : List Request → TimerQueue → Type 0
CanPerformAll [] q = Unit {0}
CanPerformAll (r ∷ rs) q = CanPerform r q × Afterwards (perform r q) (CanPerformAll rs)

abbrev pub CanRun : (ℕ → List Request) → List Pair → TimerQueue → Type 0
CanRun behaviour [] q = Unit {0}
CanRun behaviour (e ∷ es) q =
    CanPerformAll (behaviour e.1) q
    × Afterwards (perform_all (behaviour e.1) q) (CanRun behaviour es)

-- A step that succeeds, keeps the indexes valid and leaves the waiting timers waiting.
abbrev pub Keeps : TimerQueue → Result TimerQueue → Type 0
Keeps q step =
    (q' : TimerQueue) × (step ≡ ok q') × IsValid q' × ((p : ℕ) → Waiting q p → Waiting q' p)

free_idle :
    (p k : ℕ) (q : TimerQueue) → IsValid q → q.objects p ≡ none → mem (p, k) q.active ≡ false
free_idle p k q v free = elim (Bool-cases (mem (p, k) q.active)) [
  | inl there ↦ absurd (ground (arith, free, (v.actives p k there).at))
  | inr gone ↦ gone
]

added-Keeps :
    (p : ℕ) (t : Timer) (q : TimerQueue)
    → IsValid q
    → CanPerform (adds p t) q
    → Keeps q (perform (adds p t) q)
unfolding perform add_timer_in_loop
added-Keeps p t q v (free, address) =
    let q0 : TimerQueue = record q { objects = update q.objects p (some t) } in
    let v0 = allocate-IsValid p t q v free in
    let at : q0.objects p ≡ some t = ground arith in
    let idle = free_idle p t.sequence q v free in
    (
      added p t q0 v0 at address idle,
      add_timer_in_loop-eq p t q0 v0 at address idle,
      added-IsValid p t q0 v0 at address idle,
      λ r w.
          let apart : r ≢ p = λ e. absurd (ground (arith, free, w.at, e)) in
          Only-Waiting p r q0 (added p t q0 v0 at address idle)
            (added-Only p t q0 v0 at address idle) apart
            (Only-Waiting p r q q0 (allocated-Only p t q) apart w),
    )

-- A waiting timer is not the one that an active entry leads to.
Waiting-apart :
    (p k r : ℕ) (q : TimerQueue) → Active q p k → mem (p, k) q.active ≡ true → Waiting q r → r ≢ p
Waiting-apart p k r q o there w e =
    let same : (r == p) ≡ true = ground (arith, e) in
    absurd (ground (arith, e, o.at, o.sequence_eq, there, w.at, w.idle))

noting-Keeps :
    (p k : ℕ) (b : Bool) (q : TimerQueue)
    → IsValid q
    → Keeps q (ok (if b then record q { canceling = insert (p, k) q.canceling } else q))
noting-Keeps p k true q v = (
  record q { canceling = insert (p, k) q.canceling },
  refl,
  same_indexes-IsValid q (insert (p, k) q.canceling) q.calling q.alarm v,
  λ r w. record { timer = w.timer; at = w.at; idle = w.idle; address = w.address },
)
noting-Keeps p k false q v = (q, refl, v, λ r w. w)

cancelled-Keeps : (p k : ℕ) (q : TimerQueue) → IsValid q → Keeps q (perform (cancels (p, k)) q)
unfolding perform cancel_in_loop
cancelled-Keeps p k q v = elim (Bool-cases (mem (p, k) q.active)) [
  | inl there ↦ (
    removed p k q v there,
    cancel_in_loop-removed p k q v there,
    removed-IsValid p k q v there,
    λ r w.
        Only-Waiting p r q (removed p k q v there) (removed-Only p k q v there)
          (Waiting-apart p k r q (own p k q v there) there w) w,
  )
  | inr gone ↦
      let (q', e, v', keeps) = noting-Keeps p k q.calling q v in
      (q', ground (arith, gone, v.sizes, e), v', keeps)
]

perform-Keeps : (r : Request) (q : TimerQueue) → IsValid q → CanPerform r q → Keeps q (perform r q)
perform-Keeps (adds p t) q v can = added-Keeps p t q v can
perform-Keeps (cancels (p, k)) q v can = cancelled-Keeps p k q v

-- A step and then another.
bind-Keeps :
    (q : TimerQueue) (m : Result TimerQueue) (next : TimerQueue → Result TimerQueue)
    (P : TimerQueue → Type 0)
    → Keeps q m
    → Afterwards m P
    → ((q' : TimerQueue)
        → IsValid q'
        → P q'
        → ((p : ℕ) → Waiting q p → Waiting q' p)
        → Keeps q' (next q'))
    → Keeps q (do q' ← m; next q')
bind-Keeps q (ok q1) next P (q', e, v, keeps) a h =
    let same : q1 ≡ q' = cc in
    let (q2, e2, v2, keeps2) = h q' v (subst P same a) keeps in
    (q2, ap next same ∙ e2, v2, λ p w. keeps2 p (keeps p w))
bind-Keeps q (err x) next P (q', e, v, keeps) a h = absurd cc

perform_all-Keeps :
    (rs : List Request) (q : TimerQueue)
    → IsValid q
    → CanPerformAll rs q
    → Keeps q (perform_all rs q)
unfolding perform_all
perform_all-Keeps [] q v can = (q, refl, v, λ p w. w)
perform_all-Keeps (r ∷ rs) q v (can, later) =
    bind-Keeps q (perform r q) (perform_all rs) (CanPerformAll rs) (perform-Keeps r q v can) later
      (λ q' v' can' _. perform_all-Keeps rs q' v' can')

pub run_callbacks-Keeps :
    (behaviour : ℕ → List Request) (es : List Pair) (q : TimerQueue)
    → IsValid q
    → AllWaiting es q
    → CanRun behaviour es q
    → Keeps q (run_callbacks behaviour es q)
unfolding run_callbacks
run_callbacks-Keeps behaviour [] q v w can = (q, refl, v, λ p w. w)
run_callbacks-Keeps behaviour (e ∷ es) q v w (can, later) = rw w.0.at (
    bind-Keeps q (perform_all (behaviour e.1) q) (run_callbacks behaviour es) (CanRun behaviour es)
      (perform_all-Keeps (behaviour e.1) q v can) later
      (λ q' v' can' keeps.
        run_callbacks-Keeps behaviour es q' v' (keeps-AllWaiting es q q' keeps w.1) can'))
