-- ===== src/EventLoopThread.antt =====
-- cppnetool/net/EventLoopThread.h and EventLoopThread.cc, with Thread::start, MutexLock and Condition
-- as they are used there: the thread that calls `startLoop` and the new one, each a step at a time. A step of
-- a thread that has to wait for the mutex, or for a wakeup, leaves the state as it is.
pub mod Handshake
pub mod Progress
mod Examples
use cppnetool.Prelude.{ℕ, Bool, true, false, List, [], ◌∷◌, Option, some, none}

-- Where the caller of `startLoop` is: before `thread_.start()`; before it has the mutex; in the test of
-- the loop; in `pthread_cond_wait`, without the mutex; woken up there; and behind the return, with
-- the pointer.
pub data Starter : Type 0 where
  idle entering checking waiting waking : Starter
  returned : ℕ → Starter

-- Where the new thread is in `threadFunc`: not there; at the construction of the loop; before it has
-- the mutex; at the store to `loop_`; at `notify`; at the end of the scope; in `loop.loop()`.
pub data Worker : Type 0 where
  absent building locking storing notifying unlocking looping : Worker

pub data Who : Type 0 where
  caller thread : Who

-- `owner` has the mutex.
pub record EventLoopThread : Type 0 where
  pub starter : Starter
  pub worker : Worker
  pub owner : Option Who
  pub loop : Option ℕ

unfoldable pub new : EventLoopThread
new = record { starter = idle; worker = absent; owner = none; loop = none }

-- `MutexLock::lock` by a caller that goes on as `next`, if the mutex is free.
unfoldable pub lock_caller : Option Who → Starter → EventLoopThread → EventLoopThread
lock_caller none next s = record s { starter = next; owner = some caller }
lock_caller (some who) next s = s

unfoldable pub lock_thread : Option Who → Worker → EventLoopThread → EventLoopThread
lock_thread none next s = record s { worker = next; owner = some thread }
lock_thread (some who) next s = s

-- `while (loop_ == NULL) cond_.wait()`, and the end of the scope behind it.
unfoldable pub check_loop : Option ℕ → EventLoopThread → EventLoopThread
check_loop none s = record s { starter = waiting; owner = none }
check_loop (some p) s = record s { starter = returned p; owner = none }

unfoldable pub start_from : Starter → EventLoopThread → EventLoopThread
start_from idle s = record s { starter = entering; worker = building }
start_from entering s = lock_caller s.owner checking s
start_from checking s = check_loop s.loop s
start_from waiting s = s
start_from waking s = lock_caller s.owner checking s
start_from (returned p) s = s

-- One step of `startLoop`.
unfoldable pub start_loop : EventLoopThread → EventLoopThread
start_loop s = start_from s.starter s

-- `pthread_cond_signal` wakes a thread that waits; it can wake up by itself, too.
unfoldable pub woken : Starter → Starter
woken waiting = waking
woken idle = idle
woken entering = entering
woken checking = checking
woken waking = waking
woken (returned p) = returned p

unfoldable pub wake : EventLoopThread → EventLoopThread
wake s = record s { starter = woken s.starter }

unfoldable pub thread_from : Worker → ℕ → EventLoopThread → EventLoopThread
thread_from absent p s = s
thread_from building p s = record s { worker = locking }
thread_from locking p s = lock_thread s.owner storing s
thread_from storing p s = record s { loop = some p; worker = notifying }
thread_from notifying p s = record s { starter = woken s.starter; worker = unlocking }
thread_from unlocking p s = record s { owner = none; worker = looping }
thread_from looping p s = s

-- One step of `threadFunc`, whose loop is at `p`.
unfoldable pub thread_func : ℕ → EventLoopThread → EventLoopThread
thread_func p s = thread_from s.worker p s

-- A step of either thread, or a wakeup that nobody asked for.
pub data Move : Type 0 where
  of_caller of_thread spurious : Move

unfoldable pub step : ℕ → Move → EventLoopThread → EventLoopThread
step p of_caller s = start_loop s
step p of_thread s = thread_func p s
step p spurious s = wake s

unfoldable pub run : ℕ → List Move → EventLoopThread → EventLoopThread
run p [] s = s
run p (m ∷ ms) s = run p ms (step p m s)
