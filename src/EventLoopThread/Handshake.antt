-- ===== src/EventLoopThread/Handshake.antt =====
-- The two threads meet: `startLoop` returns the loop of the new thread, whatever the order of their steps.
use cppnetool.Prelude.{ℕ, List, [], ◌∷◌, Option, some, none}
use cppnetool.EventLoopThread.{
  EventLoopThread, Starter, idle, entering, checking, waiting, waking, returned, Worker, absent,
  building, locking, storing, notifying, unlocking, looping, Who, caller, thread, start_loop,
  start_from, thread_func, thread_from, wake, woken, lock_caller, lock_thread, check_loop, Move,
  of_caller, of_thread, spurious, step, run,
}

abbrev pub state : Starter → Worker → Option Who → Option ℕ → EventLoopThread
state starter worker owner loop = record {
  starter = starter;
  worker = worker;
  owner = owner;
  loop = loop;
}

-- Every state that the two threads can be in: only one of them has the mutex, the loop is stored from
-- `notify` on, and nobody waits behind `notify`.
pub data Reached (p : ℕ) : EventLoopThread → Type 0 where
  fresh : Reached p (state idle absent none none)
  entering_building : Reached p (state entering building none none)
  entering_locking : Reached p (state entering locking none none)
  entering_storing : Reached p (state entering storing (some thread) none)
  entering_notifying : Reached p (state entering notifying (some thread) (some p))
  entering_unlocking : Reached p (state entering unlocking (some thread) (some p))
  entering_looping : Reached p (state entering looping none (some p))
  checking_building : Reached p (state checking building (some caller) none)
  checking_locking : Reached p (state checking locking (some caller) none)
  checking_looping : Reached p (state checking looping (some caller) (some p))
  waiting_building : Reached p (state waiting building none none)
  waiting_locking : Reached p (state waiting locking none none)
  waiting_storing : Reached p (state waiting storing (some thread) none)
  waiting_notifying : Reached p (state waiting notifying (some thread) (some p))
  waking_building : Reached p (state waking building none none)
  waking_locking : Reached p (state waking locking none none)
  waking_storing : Reached p (state waking storing (some thread) none)
  waking_notifying : Reached p (state waking notifying (some thread) (some p))
  waking_unlocking : Reached p (state waking unlocking (some thread) (some p))
  waking_looping : Reached p (state waking looping none (some p))
  done : Reached p (state (returned p) looping none (some p))

start_loop-Reached : (p : ℕ) (s : EventLoopThread) → Reached p s → Reached p (start_loop s)
unfolding start_loop start_from lock_caller check_loop
start_loop-Reached p _ fresh = entering_building
start_loop-Reached p _ entering_building = checking_building
start_loop-Reached p _ entering_locking = checking_locking
start_loop-Reached p _ entering_storing = entering_storing
start_loop-Reached p _ entering_notifying = entering_notifying
start_loop-Reached p _ entering_unlocking = entering_unlocking
start_loop-Reached p _ entering_looping = checking_looping
start_loop-Reached p _ checking_building = waiting_building
start_loop-Reached p _ checking_locking = waiting_locking
start_loop-Reached p _ checking_looping = done
start_loop-Reached p _ waiting_building = waiting_building
start_loop-Reached p _ waiting_locking = waiting_locking
start_loop-Reached p _ waiting_storing = waiting_storing
start_loop-Reached p _ waiting_notifying = waiting_notifying
start_loop-Reached p _ waking_building = checking_building
start_loop-Reached p _ waking_locking = checking_locking
start_loop-Reached p _ waking_storing = waking_storing
start_loop-Reached p _ waking_notifying = waking_notifying
start_loop-Reached p _ waking_unlocking = waking_unlocking
start_loop-Reached p _ waking_looping = checking_looping
start_loop-Reached p _ done = done

thread_func-Reached : (p : ℕ) (s : EventLoopThread) → Reached p s → Reached p (thread_func p s)
unfolding thread_func thread_from lock_thread woken
thread_func-Reached p _ fresh = fresh
thread_func-Reached p _ entering_building = entering_locking
thread_func-Reached p _ entering_locking = entering_storing
thread_func-Reached p _ entering_storing = entering_notifying
thread_func-Reached p _ entering_notifying = entering_unlocking
thread_func-Reached p _ entering_unlocking = entering_looping
thread_func-Reached p _ entering_looping = entering_looping
thread_func-Reached p _ checking_building = checking_locking
thread_func-Reached p _ checking_locking = checking_locking
thread_func-Reached p _ checking_looping = checking_looping
thread_func-Reached p _ waiting_building = waiting_locking
thread_func-Reached p _ waiting_locking = waiting_storing
thread_func-Reached p _ waiting_storing = waiting_notifying
thread_func-Reached p _ waiting_notifying = waking_unlocking
thread_func-Reached p _ waking_building = waking_locking
thread_func-Reached p _ waking_locking = waking_storing
thread_func-Reached p _ waking_storing = waking_notifying
thread_func-Reached p _ waking_notifying = waking_unlocking
thread_func-Reached p _ waking_unlocking = waking_looping
thread_func-Reached p _ waking_looping = waking_looping
thread_func-Reached p _ done = done

wake-Reached : (p : ℕ) (s : EventLoopThread) → Reached p s → Reached p (wake s)
unfolding wake woken
wake-Reached p _ fresh = fresh
wake-Reached p _ entering_building = entering_building
wake-Reached p _ entering_locking = entering_locking
wake-Reached p _ entering_storing = entering_storing
wake-Reached p _ entering_notifying = entering_notifying
wake-Reached p _ entering_unlocking = entering_unlocking
wake-Reached p _ entering_looping = entering_looping
wake-Reached p _ checking_building = checking_building
wake-Reached p _ checking_locking = checking_locking
wake-Reached p _ checking_looping = checking_looping
wake-Reached p _ waiting_building = waking_building
wake-Reached p _ waiting_locking = waking_locking
wake-Reached p _ waiting_storing = waking_storing
wake-Reached p _ waiting_notifying = waking_notifying
wake-Reached p _ waking_building = waking_building
wake-Reached p _ waking_locking = waking_locking
wake-Reached p _ waking_storing = waking_storing
wake-Reached p _ waking_notifying = waking_notifying
wake-Reached p _ waking_unlocking = waking_unlocking
wake-Reached p _ waking_looping = waking_looping
wake-Reached p _ done = done

step-Reached : (p : ℕ) (m : Move) (s : EventLoopThread) → Reached p s → Reached p (step p m s)
unfolding step
step-Reached p of_caller s r = start_loop-Reached p s r
step-Reached p of_thread s r = thread_func-Reached p s r
step-Reached p spurious s r = wake-Reached p s r

-- Over any steps of the two threads and any wakeups that nobody asked for, from a new object on, the
-- state is one of those in `Reached`: the mutex has one owner, and nobody waits for a `notify` that
-- has already been.
pub run-Reached :
    (p : ℕ) (ms : List Move) (s : EventLoopThread) → Reached p s → Reached p (run p ms s)
unfolding run
run-Reached p [] s r = r
run-Reached p (m ∷ ms) s r = run-Reached p ms (step p m s) (step-Reached p m s r)
