-- ===== src/EventLoopThreadPool/Examples.antt =====
-- The pool's theorem at a concrete input.
use cppnetool.Prelude.{ℕ, ◌+◌, ◌≡◌, true, refl, some, [], ◌∷◌, arith}
use cppnetool.Prelude.Result.{ok}
use cppnetool.EventLoopThreadPool.{EventLoopThreadPool, new, set_thread_num, start, start_loops}
use cppnetool.EventLoopThreadPool.RoundRobin.{after_calls, loop_given, round_robin}

abbrev pool : EventLoopThreadPool
pool = record {
  base_loop = 9;
  started = true;
  num_threads = 3;
  next = 0;
  loops = 10 ∷ 11 ∷ 12 ∷ [];
}

pool_started : start (λ i. 10 + i) (set_thread_num 3 (new 9)) ≡ ok pool
unfolding start start_loops set_thread_num new
pool_started = refl

round_robin_example :
    (p : EventLoopThreadPool) × (loop : ℕ) × (after_calls 4 pool ≡ ok p)
    × (some 11 ≡ some loop)
    × (loop_given p ≡ ok loop)
round_robin_example = round_robin 4 pool (omega arith)
