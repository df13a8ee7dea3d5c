-- ===== src/EventLoopThreadPool.antt =====
-- cppnetool/net/EventLoopThreadPool.h and EventLoopThreadPool.cc: the loops that new connections are
-- spread over. A loop is a number; the loops that the threads start are an argument of `start`.
pub mod RoundRobin
mod Examples
use cppnetool.Prelude.{
  ℕ, zero, suc, Bool, true, false, not, List, [], ◌∷◌, ◌++◌, leb, if◌then◌else◌, length, take,
  get_elem?,
}
use cppnetool.Prelude.Result.{Result, ok, check, need, ◌>>=◌, ◌>>◌}

pub record EventLoopThreadPool : Type 0 where
  pub base_loop : ℕ
  pub started : Bool
  pub num_threads : ℕ
  pub next : ℕ
  pub loops : List ℕ

unfoldable pub new : ℕ → EventLoopThreadPool
new base_loop = record {
  base_loop = base_loop;
  started = false;
  num_threads = 0;
  next = 0;
  loops = [];
}

unfoldable pub set_thread_num : ℕ → EventLoopThreadPool → EventLoopThreadPool
set_thread_num num_threads p = record p { num_threads = num_threads }

-- The loop of `start`: `start_loop i` is what the thread `i` returns.
unfoldable pub start_loops : (ℕ → ℕ) → ℕ → List ℕ
start_loops start_loop zero = []
start_loops start_loop (suc n) = start_loops start_loop n ++ start_loop n ∷ []

unfoldable pub start : (ℕ → ℕ) → EventLoopThreadPool → Result EventLoopThreadPool
start start_loop p = do
  check (not p.started)
  ok (record p { started = true; loops = p.loops ++ start_loops start_loop p.num_threads })

-- The next loop in turn, and the pool.
unfoldable pub get_next_loop : EventLoopThreadPool → Result (ℕ × EventLoopThreadPool)
get_next_loop p = elim p.loops [
  | [] ↦ ok (p.base_loop, p)
  | first ∷ rest ↦ do
    loop ← need (get_elem? p.loops p.next)
    ok (loop, record p { next = if leb (length p.loops) (suc p.next) then 0 else suc p.next })
]
