-- ===== src/EventLoop/Order.antt =====
-- The order in which functors run.
use cppnetool.Prelude.{
  ℕ, ◌≡◌, refl, sym, ap, ◌∙◌, Bool, true, false, List, [], ◌∷◌, ◌++◌, append-nil, append_assoc,
  Bool-cases, inl, inr, not, ◌||◌,
}
use cppnetool.EventLoop.{
  EventLoop, push, wake_if, begin_functor, read_wakeup, take_functors, finish, wakeup,
}
use cppnetool.EventLoop.Steps.{
  Step, Reaches, pushes_elsewhere, wakes_elsewhere, pushes_here, asks, settles, reads, takes, runs,
  finishes, here, next,
}

-- Those that have run, those being run and those waiting are all that were queued, in this order.
abbrev pub InOrder : EventLoop → Type 0
InOrder l = (l.ran ++ (l.running ++ l.pending)) ≡ l.queued

push-InOrder : (f : ℕ) (l : EventLoop) → InOrder l → InOrder (push f l)
push-InOrder f l h = rw (← h) (
    ap (λ fs. l.ran ++ fs) (sym (append_assoc l.running l.pending (f ∷ [])))
    ∙ sym (append_assoc l.ran (l.running ++ l.pending) (f ∷ [])))

wake_if-InOrder : (b : Bool) (l : EventLoop) → InOrder l → InOrder (wake_if b l)
unfolding wake_if wakeup
wake_if-InOrder b l h = elim (Bool-cases (not b || l.calling)) [
  | inl p ↦ rw (wake_if, p) h
  | inr p ↦ rw (wake_if, p) h
]

Step-InOrder :
    (behaviour : ℕ → List ℕ) (foreign local : Bool) {l m : EventLoop}
    → Step behaviour foreign local l m
    → InOrder l
    → InOrder m
unfolding begin_functor read_wakeup take_functors finish
Step-InOrder behaviour foreign local (pushes_elsewhere f l e) h = push-InOrder f l h
Step-InOrder behaviour foreign local (wakes_elsewhere l e) h = wake_if-InOrder false l h
Step-InOrder behaviour foreign local (pushes_here f l e c w o) h = push-InOrder f l h
Step-InOrder behaviour foreign local (asks f fs l c o a) h = push-InOrder f l h
Step-InOrder behaviour foreign local (settles l o) h = wake_if-InOrder true l h
Step-InOrder behaviour foreign local (reads l w c k o) h = h
Step-InOrder behaviour foreign local (takes l w e) h = rw (append-nil l.pending, ← h, e) refl
Step-InOrder behaviour foreign local (runs l f rest c o a e) h =
    rw (← h, e) (append_assoc l.ran (f ∷ []) (rest ++ l.pending))
Step-InOrder behaviour foreign local (finishes l c o a e) h = h

-- From a state where it is so, in every interleaving of the loop with other threads, each functor that is queued runs at most
-- once and in the order of the queue: those that have run, those that are being run and those that
-- wait are together the functors queued so far, in order.
pub Reaches-InOrder :
    (behaviour : ℕ → List ℕ) (foreign local : Bool) {l m : EventLoop}
    → Reaches behaviour foreign local l m
    → InOrder l
    → InOrder m
Reaches-InOrder behaviour foreign local (here l) h = h
Reaches-InOrder behaviour foreign local (next l m n r s) h =
    Step-InOrder behaviour foreign local s (Reaches-InOrder behaviour foreign local r h)
