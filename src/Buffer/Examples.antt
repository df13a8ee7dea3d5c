-- ===== src/Buffer/Examples.antt =====
-- The buffer's theorems at concrete inputs, and runs of its operations.
use cppnetool.Prelude.{◌≡◌, refl, [], ◌∷◌, arith}
use cppnetool.Prelude.Result.{ok}
use cppnetool.Prelude.{length, ◌<◌}
use cppnetool.Buffer.{Buffer, append, shrink}
use cppnetool.Buffer.Invariant.{IsValid, contents}
use cppnetool.Buffer.Shrink.{shrink-writer_index}
use cppnetool.Buffer.Refine.{put, skip, take_all, run, call, queue_call, view, run_refines}

-- Two bytes consumed, two to read, two free.
abbrev partly_read : Buffer
partly_read = record {
  storage = 0 ∷ 0 ∷ 0 ∷ 0 ∷ 0 ∷ 0 ∷ 0 ∷ 0 ∷ 1 ∷ 2 ∷ 3 ∷ 4 ∷ 0 ∷ 0 ∷ [];
  reader_index = 10;
  writer_index = 12;
}

partly_read-IsValid : IsValid partly_read
partly_read-IsValid = omega arith

-- Room behind and in front is enough: the bytes move, and the vector keeps its size.
append_moves :
    append (5 ∷ 6 ∷ 7 ∷ []) partly_read
    ≡ ok (record {
      storage = 0 ∷ 0 ∷ 0 ∷ 0 ∷ 0 ∷ 0 ∷ 0 ∷ 0 ∷ 3 ∷ 4 ∷ 5 ∷ 6 ∷ 7 ∷ 0 ∷ [];
      reader_index = 8;
      writer_index = 13;
    })
unfolding append
append_moves = refl

shrink-writer_index_example :
    length (shrink 1 partly_read).storage < (shrink 1 partly_read).writer_index
unfolding contents
shrink-writer_index_example =
    shrink-writer_index 1 partly_read partly_read-IsValid (omega arith) (omega arith)

run_refines_example :
    view (run call (put (5 ∷ []) ∷ skip 1 ∷ take_all ∷ []) partly_read)
    ≡ run queue_call (put (5 ∷ []) ∷ skip 1 ∷ take_all ∷ []) (contents partly_read)
run_refines_example =
    run_refines (put (5 ∷ []) ∷ skip 1 ∷ take_all ∷ []) partly_read 12 partly_read-IsValid
      (omega arith) (omega arith) (omega arith)
