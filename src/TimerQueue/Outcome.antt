-- ===== src/TimerQueue/Outcome.antt =====
-- What `reset` makes of each expired timer.
use cppnetool.Prelude.{
  ℕ, ◌≡◌, ◌≢◌, sym, ◌∙◌, subst, Bool, true, false, none, not, ◌&&◌, some, List, [], ◌∷◌,
}
use cppnetool.SortedSet.{Pair, mem}
use cppnetool.Timestamp.{Timestamp, add_time}
use cppnetool.TimerQueue.{Timer, TimerQueue}
use cppnetool.TimerQueue.Waiting.{Only, NotAt}
use cppnetool.Prelude.{Option}

abbrev pub Distinct : List Pair → Type 0
Distinct [] = Unit {0}
Distinct (e ∷ es) = NotAt e.1 es × Distinct es

-- What becomes of an expired timer: it is scheduled again, or deleted.
abbrev pub Fate : Bool → ℕ → Timestamp → List Pair → (ℕ → Option Timer) → Type 0
Fate true p time timers objects = mem (time, p) timers ≡ true
Fate false p time timers objects = objects p ≡ none

abbrev pub Outcome : Timestamp → ℕ → TimerQueue → List Pair → (ℕ → Option Timer) → Type 0
Outcome now p q timers objects =
    (t : Timer) × (q.objects p ≡ some t)
    × Fate (t.repeat && not (mem (p, t.sequence) q.canceling)) p (add_time now t.interval) timers
        objects

abbrev pub AllOutcomes :
    Timestamp → List Pair → TimerQueue → List Pair → (ℕ → Option Timer) → Type 0
AllOutcomes now [] q timers objects = Unit {0}
AllOutcomes now (e ∷ es) q timers objects =
    Outcome now e.1 q timers objects × AllOutcomes now es q timers objects

-- A timer that another round does not touch has the fate that it had.
pub Fate-Only :
    (b : Bool) (p r : ℕ) (time : Timestamp) (q q' : TimerQueue)
    → Only p q q'
    → r ≢ p
    → Fate b r time q.timers q.objects
    → Fate b r time q'.timers q'.objects
Fate-Only true p r time q q' o apart f = o.timers_kept time r apart f
Fate-Only false p r time q q' o apart f = o.objects_same r apart ∙ f

pub Only-AllOutcomes :
    (now : Timestamp) (p : ℕ) (q q' : TimerQueue) (es : List Pair) (timers : List Pair)
    (objects : ℕ → Option Timer)
    → Only p q q'
    → NotAt p es
    → AllOutcomes now es q' timers objects
    → AllOutcomes now es q timers objects
Only-AllOutcomes now p q q' [] timers objects o n f = tt
Only-AllOutcomes now p q q' (e ∷ es) timers objects o n ((t, at, f), fs) = (
  (
    t,
    sym (o.objects_same e.1 n.0) ∙ at,
    subst
        (λ c.
          Fate (t.repeat && not (mem (e.1, t.sequence) c)) e.1 (add_time now t.interval) timers
            objects)
        o.canceling_same f,
  ),
  Only-AllOutcomes now p q q' es timers objects o n.1 fs,
)
