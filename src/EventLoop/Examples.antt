-- ===== src/EventLoop/Examples.antt =====
-- The loop's theorems at concrete inputs.
use cppnetool.Prelude.{ℕ, ◌≡◌, refl, true, false, List, [], ◌∷◌, ◌==◌, if◌then◌else◌, inl, arith}
use cppnetool.EventLoop.{
  EventLoop, new, push, wake_if, read_wakeup, take_functors, begin_functor, handle_read, wakeup,
}
use cppnetool.EventLoop.Steps.{
  Reaches, pushes_elsewhere, wakes_elsewhere, pushes_here, asks, settles, reads, takes, runs, here,
  next,
}
use cppnetool.EventLoop.Order.{InOrder, Reaches-InOrder}
use cppnetool.EventLoop.Wakeup.{IsAwake, IsAsleep, Reaches-IsAwake, Reaches-IsAsleep}
use cppnetool.EventLoop.Drain.{queued_by, handle_read_lem}

-- Functor 1 queues functor 2.
abbrev behaviour : ℕ → List ℕ
behaviour f = if f == 1 then 2 ∷ [] else []

-- Another thread queues functor 1, and the loop runs it and pushes functor 2.
abbrev pushed : EventLoop
pushed = record (push 1 new) { posting = 1 }

abbrev posted : EventLoop
posted = record (wake_if false pushed) { posting = 0 }

abbrev begun : EventLoop
begun = begin_functor behaviour 1 [] (take_functors (read_wakeup posted))

abbrev asked : EventLoop
asked = record (push 2 begun) { owes = true; asking = [] }

round : Reaches behaviour true false new asked
unfolding new wake_if wakeup read_wakeup take_functors begin_functor
round =
    next _ _ _
      (next _ _ _
        (next _ _ _
          (next _ _ _
            (next _ _ _ (next _ _ _ (here new) (pushes_elsewhere 1 new refl))
              (wakes_elsewhere pushed (omega arith)))
            (reads posted (omega arith) refl refl refl))
          (takes (read_wakeup posted) refl refl))
        (runs (take_functors (read_wakeup posted)) 1 [] refl refl refl refl))
      (asks 2 [] begun refl refl refl)

Reaches-InOrder_example : InOrder asked
unfolding new
Reaches-InOrder_example = Reaches-InOrder behaviour true false round refl

Reaches-IsAwake_example : IsAwake asked
unfolding new
Reaches-IsAwake_example =
    Reaches-IsAwake behaviour true round
      (record { found = inl refl; one_round = λ e. refl; in_round = λ e. absurd (cc (e)) })

-- A callback of a channel queues functor 3 in a loop that sleeps.
abbrev quiet : EventLoop
quiet = record (wake_if true (record (push 3 new) { owes = true })) { owes = false }

forgotten : Reaches behaviour false true new quiet
unfolding new
forgotten =
    next _ _ _ (next _ _ _ (here new) (pushes_here 3 new refl refl refl refl))
      (settles (record (push 3 new) { owes = true }) refl)

Reaches-IsAsleep_example : IsAsleep quiet × (quiet.ran ≡ [])
unfolding new wake_if
Reaches-IsAsleep_example =
    Reaches-IsAsleep behaviour true forgotten
      (record { no_wakeup = refl; not_calling = refl; not_woken = refl; none_posting = refl })

abbrev waiting : EventLoop
unfolding new
waiting = record new { pending = 1 ∷ 3 ∷ []; wakeups = 1; queued = 1 ∷ 3 ∷ [] }

handle_read_lem_example :
    let m = handle_read behaviour waiting in
    (m.ran ≡ 1 ∷ 3 ∷ []) × (m.pending ≡ 2 ∷ []) × (m.wakeups ≡ 1) × (m.calling ≡ false)
unfolding new queued_by
handle_read_lem_example = handle_read_lem behaviour waiting
