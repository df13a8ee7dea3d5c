-- ===== src/EventLoop/Steps.antt =====
-- The interleavings of a loop with other threads, as a step relation: one step for each stretch of
-- EventLoop.cc between two places where another thread can come in. `queueInLoop` is two steps, the push
-- under the mutex and the wakeup behind it.
use cppnetool.Prelude.{ℕ, suc, ◌-◌, ◌≤◌, ◌≡◌, Bool, true, false, List, [], ◌∷◌}
use cppnetool.EventLoop.{
  EventLoop, push, wake_if, begin_functor, read_wakeup, take_functors, finish,
}

-- `foreign` tells whether other threads queue functors, and `local` whether callbacks of the loop's
-- own channels do.
pub data Step (behaviour : ℕ → List ℕ) (foreign local : Bool) : EventLoop → EventLoop → Type 0 where
  pushes_elsewhere :
      (f : ℕ) (l : EventLoop)
      → foreign ≡ true
      → Step behaviour foreign local l (record (push f l) { posting = suc l.posting })
  wakes_elsewhere :
      (l : EventLoop)
      → 1 ≤ l.posting
      → Step behaviour foreign local l (record (wake_if false l) { posting = l.posting - 1 })
  pushes_here :
      (f : ℕ) (l : EventLoop)
      → local ≡ true
      → l.calling ≡ false
      → l.woken ≡ false
      → l.owes ≡ false
      → Step behaviour foreign local l (record (push f l) { owes = true })
  asks :
      (f : ℕ) (fs : List ℕ) (l : EventLoop)
      → l.calling ≡ true
      → l.owes ≡ false
      → l.asking ≡ f ∷ fs
      → Step behaviour foreign local l (record (push f l) { owes = true; asking = fs })
  settles :
      (l : EventLoop)
      → l.owes ≡ true
      → Step behaviour foreign local l (record (wake_if true l) { owes = false })
  reads :
      (l : EventLoop)
      → 1 ≤ l.wakeups
      → l.calling ≡ false
      → l.woken ≡ false
      → l.owes ≡ false
      → Step behaviour foreign local l (read_wakeup l)
  takes :
      (l : EventLoop)
      → l.woken ≡ true
      → l.running ≡ []
      → Step behaviour foreign local l (take_functors l)
  runs :
      (l : EventLoop) (f : ℕ) (rest : List ℕ)
      → l.calling ≡ true
      → l.owes ≡ false
      → l.asking ≡ []
      → l.running ≡ f ∷ rest
      → Step behaviour foreign local l (begin_functor behaviour f rest l)
  finishes :
      (l : EventLoop)
      → l.calling ≡ true
      → l.owes ≡ false
      → l.asking ≡ []
      → l.running ≡ []
      → Step behaviour foreign local l (finish l)

-- Any number of steps.
pub data Reaches (behaviour : ℕ → List ℕ) (foreign local : Bool)
    : EventLoop → EventLoop → Type 0 where
  here : (l : EventLoop) → Reaches behaviour foreign local l l
  next :
      (l m n : EventLoop)
      → Reaches behaviour foreign local l m
      → Step behaviour foreign local m n
      → Reaches behaviour foreign local l n
