-- ===== src/EventLoopThread/Progress.antt =====
-- The handshake comes to its end.
use cppnetool.Prelude.{ℕ, ◌+◌, ◌*◌, ◌<◌, ◌≡◌, refl, ◌⊎◌, inl, inr, List, some, none, arith}
use cppnetool.EventLoopThread.{
  EventLoopThread, Starter, idle, entering, checking, waiting, waking, returned, Worker, absent,
  building, locking, storing, notifying, unlocking, looping, new, start_loop, start_from,
  thread_func, thread_from, woken, lock_caller, lock_thread, check_loop, Move, run,
}
use cppnetool.EventLoopThread.Handshake.{
  Reached, state, run-Reached, fresh, entering_building, entering_locking, entering_storing,
  entering_notifying, entering_unlocking, entering_looping, checking_building, checking_locking,
  checking_looping, waiting_building, waiting_locking, waiting_storing, waiting_notifying,
  waking_building, waking_locking, waking_storing, waking_notifying, waking_unlocking,
  waking_looping, done,
}

-- How far the two threads still have to go.
abbrev starter_rank : Starter → ℕ
starter_rank idle = 9
starter_rank entering = 5
starter_rank checking = 4
starter_rank waiting = 0
starter_rank waking = 5
starter_rank (returned p) = 0

abbrev worker_rank : Worker → ℕ
worker_rank absent = 6
worker_rank building = 5
worker_rank locking = 4
worker_rank storing = 3
worker_rank notifying = 2
worker_rank unlocking = 1
worker_rank looping = 0

abbrev pub rank : EventLoopThread → ℕ
rank s = 10 * worker_rank s.worker + starter_rank s.starter

start_loop-rank :
    (p : ℕ) (s : EventLoopThread)
    → Reached p s
    → (start_loop s ≡ s) ⊎ (rank (start_loop s) < rank s)
unfolding start_loop start_from lock_caller check_loop
start_loop-rank p _ fresh = inr (omega arith)
start_loop-rank p _ entering_building = inr (omega arith)
start_loop-rank p _ entering_locking = inr (omega arith)
start_loop-rank p _ entering_storing = inl refl
start_loop-rank p _ entering_notifying = inl refl
start_loop-rank p _ entering_unlocking = inl refl
start_loop-rank p _ entering_looping = inr (omega arith)
start_loop-rank p _ checking_building = inr (omega arith)
start_loop-rank p _ checking_locking = inr (omega arith)
start_loop-rank p _ checking_looping = inr (omega arith)
start_loop-rank p _ waiting_building = inl refl
start_loop-rank p _ waiting_locking = inl refl
start_loop-rank p _ waiting_storing = inl refl
start_loop-rank p _ waiting_notifying = inl refl
start_loop-rank p _ waking_building = inr (omega arith)
start_loop-rank p _ waking_locking = inr (omega arith)
start_loop-rank p _ waking_storing = inl refl
start_loop-rank p _ waking_notifying = inl refl
start_loop-rank p _ waking_unlocking = inl refl
start_loop-rank p _ waking_looping = inr (omega arith)
start_loop-rank p _ done = inl refl

thread_func-rank :
    (p : ℕ) (s : EventLoopThread)
    → Reached p s
    → (thread_func p s ≡ s) ⊎ (rank (thread_func p s) < rank s)
unfolding thread_func thread_from lock_thread woken
thread_func-rank p _ fresh = inl refl
thread_func-rank p _ entering_building = inr (omega arith)
thread_func-rank p _ entering_locking = inr (omega arith)
thread_func-rank p _ entering_storing = inr (omega arith)
thread_func-rank p _ entering_notifying = inr (omega arith)
thread_func-rank p _ entering_unlocking = inr (omega arith)
thread_func-rank p _ entering_looping = inl refl
thread_func-rank p _ checking_building = inr (omega arith)
thread_func-rank p _ checking_locking = inl refl
thread_func-rank p _ checking_looping = inl refl
thread_func-rank p _ waiting_building = inr (omega arith)
thread_func-rank p _ waiting_locking = inr (omega arith)
thread_func-rank p _ waiting_storing = inr (omega arith)
thread_func-rank p _ waiting_notifying = inr (omega arith)
thread_func-rank p _ waking_building = inr (omega arith)
thread_func-rank p _ waking_locking = inr (omega arith)
thread_func-rank p _ waking_storing = inr (omega arith)
thread_func-rank p _ waking_notifying = inr (omega arith)
thread_func-rank p _ waking_unlocking = inr (omega arith)
thread_func-rank p _ waking_looping = inl refl
thread_func-rank p _ done = inl refl

progress :
    (p : ℕ) (s : EventLoopThread)
    → Reached p s
    → (s ≡ state (returned p) looping none (some p))
      ⊎ ((rank (start_loop s) < rank s) ⊎ (rank (thread_func p s) < rank s))
unfolding start_loop start_from lock_caller check_loop thread_func thread_from lock_thread woken
progress p _ fresh = inr (inl (omega arith))
progress p _ entering_building = inr (inl (omega arith))
progress p _ entering_locking = inr (inl (omega arith))
progress p _ entering_storing = inr (inr (omega arith))
progress p _ entering_notifying = inr (inr (omega arith))
progress p _ entering_unlocking = inr (inr (omega arith))
progress p _ entering_looping = inr (inl (omega arith))
progress p _ checking_building = inr (inl (omega arith))
progress p _ checking_locking = inr (inl (omega arith))
progress p _ checking_looping = inr (inl (omega arith))
progress p _ waiting_building = inr (inr (omega arith))
progress p _ waiting_locking = inr (inr (omega arith))
progress p _ waiting_storing = inr (inr (omega arith))
progress p _ waiting_notifying = inr (inr (omega arith))
progress p _ waking_building = inr (inl (omega arith))
progress p _ waking_locking = inr (inl (omega arith))
progress p _ waking_storing = inr (inr (omega arith))
progress p _ waking_notifying = inr (inr (omega arith))
progress p _ waking_unlocking = inr (inr (omega arith))
progress p _ waking_looping = inr (inl (omega arith))
progress p _ done = inl refl

-- The handshake comes to its end: after any steps and spurious wakeups, a step of either thread
-- leaves the state as it is or brings the two nearer to the end, by a measure that starts at 69; and
-- until `startLoop` has returned the loop of the new thread, which runs it, with the mutex free, one of
-- them can make a step that does.
pub run-progress :
    (p : ℕ) (ms : List Move)
    → let s = run p ms new in
      ((start_loop s ≡ s) ⊎ (rank (start_loop s) < rank s))
      × ((thread_func p s ≡ s) ⊎ (rank (thread_func p s) < rank s))
      × ((s ≡ state (returned p) looping none (some p))
          ⊎ ((rank (start_loop s) < rank s) ⊎ (rank (thread_func p s) < rank s)))
unfolding new
run-progress p ms =
    let r = run-Reached p ms new fresh in
    let s = run p ms new in (start_loop-rank p s r, thread_func-rank p s r, progress p s r)
