-- ===== src/EventLoopThread/Examples.antt =====
-- The handshake at concrete steps: with a wakeup that nobody asked for, and to its end.
use cppnetool.Prelude.{◌<◌, ◌≡◌, refl, ◌⊎◌, List, [], ◌∷◌, none, some}
use cppnetool.EventLoopThread.{
  new, start_loop, thread_func, Move, of_caller, of_thread, spurious, run, step, start_from,
  thread_from, woken, lock_caller, lock_thread, check_loop, returned, looping,
}
use cppnetool.EventLoopThread.Handshake.{Reached, state, fresh}
use cppnetool.EventLoopThread.Progress.{rank, run-progress}

abbrev moves : List Move
moves = of_caller ∷ of_caller ∷ of_caller ∷ spurious ∷ of_thread ∷ of_caller ∷ []

fresh-Reached : Reached 7 new
unfolding new
fresh-Reached = fresh

run-progress_example :
    ((start_loop (run 7 moves new) ≡ run 7 moves new)
      ⊎ (rank (start_loop (run 7 moves new)) < rank (run 7 moves new)))
    × ((thread_func 7 (run 7 moves new) ≡ run 7 moves new)
        ⊎ (rank (thread_func 7 (run 7 moves new)) < rank (run 7 moves new)))
    × ((run 7 moves new ≡ state (returned 7) looping none (some 7))
        ⊎ ((rank (start_loop (run 7 moves new)) < rank (run 7 moves new))
            ⊎ (rank (thread_func 7 (run 7 moves new)) < rank (run 7 moves new))))
run-progress_example = run-progress 7 moves

-- The caller waits, and the new thread stores its loop and wakes it up.
to_the_end :
    run 7
      (of_caller ∷ of_caller ∷ of_caller ∷ of_thread ∷ of_thread ∷ of_thread ∷ of_thread ∷ of_thread
        ∷ of_caller ∷ of_caller ∷ [])
      new
    ≡ state (returned 7) looping none (some 7)
unfolding run step new start_loop start_from thread_func thread_from lock_caller lock_thread
    check_loop woken
to_the_end = refl
