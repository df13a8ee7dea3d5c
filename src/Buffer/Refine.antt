-- ===== src/Buffer/Refine.antt =====
-- The buffer against its abstract view, a queue of bytes: no sequence of calls tells them apart.
use cppnetool.Prelude.{
  ℕ, ◌+◌, ◌≤◌, ◌≡◌, refl, List, [], ◌∷◌, ◌++◌, arith, length, drop, leb, Bool-cases, inl, inr,
}
use cppnetool.Prelude.Result.{Result, ok, err, assertion, check, ◌>>=◌, ◌>>◌}
use cppnetool.Buffer.{
  Buffer, append, retrieve, retrieve_all, retrieve_as_string, max_size, cheap_prepend,
}
use cppnetool.Buffer.Invariant.{IsValid, contents, retrieve_all-IsValid, contents-retrieve_all}
use cppnetool.Buffer.Append.{append_lem}
use cppnetool.Buffer.Consume.{retrieve_lem, retrieve_too_many, retrieve_as_string_lem}

-- The calls of a client.
pub data Call : Type 0 where
  put : List ℕ → Call
  skip : ℕ → Call
  clear take_all : Call

-- A call on the buffer, with the string that it returns.
unfoldable pub call : Call → Buffer → Result (List ℕ × Buffer)
call (put bytes) b = do b' ← append bytes b; ok ([], b')
call (skip n) b = do b' ← retrieve n b; ok ([], b')
call clear b = ok ([], retrieve_all b)
call take_all b = ok (retrieve_as_string b)

-- The same call on a queue of bytes.
unfoldable pub queue_call : Call → List ℕ → Result (List ℕ × List ℕ)
queue_call (put bytes) q = ok ([], q ++ bytes)
queue_call (skip n) q = do check (leb n (length q)); ok ([], drop n q)
queue_call clear q = ok ([], [])
queue_call take_all q = ok (q, [])

module _ {S : Type 0} (step : Call → S → Result (List ℕ × S)) where
  -- The strings that the calls return, and the last state.
  unfoldable pub run : List Call → S → Result (List (List ℕ) × S)
  run [] s = ok ([], s)
  run (c ∷ cs) s = do (out, s') ← step c s; (outs, t) ← run cs s'; ok (out ∷ outs, t)

-- How many bytes a call, and a list of calls, put in.
abbrev pub cost : Call → ℕ
cost (put bytes) = length bytes
cost (skip n) = 0
cost clear = 0
cost take_all = 0

abbrev pub total : List Call → ℕ
total [] = 0
total (c ∷ cs) = cost c + total cs

-- The queue that a buffer stands for, behind the result of a run.
abbrev pub view : Result (List (List ℕ) × Buffer) → Result (List (List ℕ) × List ℕ)
view (ok (outs, b)) = ok (outs, contents b)
view (err e) = err e

view_then :
    (out : List ℕ) (r : Result (List (List ℕ) × Buffer))
    → view (r >>= λ (outs, t). ok (out ∷ outs, t)) ≡ (view r >>= λ (outs, t). ok (out ∷ outs, t))
view_then out (ok (outs, t)) = refl
view_then out (err e) = refl

-- A call that ends well in both views, with the same string, or that fails its assertion in both.
data Agrees (c : Call) (b : Buffer) (k : ℕ) : Type 0 where
  both :
      (out : List ℕ) (b' : Buffer)
      → call c b ≡ ok (out, b')
      → queue_call c (contents b) ≡ ok (out, contents b')
      → IsValid b'
      → b'.writer_index ≤ k
      → Agrees c b k
  neither : call c b ≡ err assertion → queue_call c (contents b) ≡ err assertion → Agrees c b k

put-Agrees :
    (bytes : List ℕ) (b : Buffer) (k : ℕ)
    → IsValid b
    → b.writer_index ≤ k
    → cheap_prepend ≤ k
    → k + length bytes ≤ max_size
    → Agrees (put bytes) b (k + length bytes)
unfolding call queue_call
put-Agrees bytes b k v h c m =
    let (b', e, a) = append_lem bytes b v (omega arith) in
    both [] b' (rw (e, call)) (rw (a.bytes_after, queue_call)) a.valid (omega (arith, a.write_le))

skip-Agrees : (n : ℕ) (b : Buffer) (k : ℕ) → IsValid b → b.writer_index ≤ k → Agrees (skip n) b k
unfolding call queue_call
skip-Agrees n b k v h = elim (Bool-cases (leb n (length (contents b)))) [
  | inl fits ↦
      let (b', e, d) = retrieve_lem n b v (ground arith) in
      both [] b' (rw (e, call)) (rw (fits, queue_call) (ground (arith, d.rest))) d.valid
        (omega (arith, d.write_same))
  | inr more ↦ neither (rw (retrieve_too_many n b v (ground arith), call)) (rw (more, queue_call))
]

call-Agrees :
    (c : Call) (b : Buffer) (k : ℕ)
    → IsValid b
    → b.writer_index ≤ k
    → cheap_prepend ≤ k
    → k + cost c ≤ max_size
    → Agrees c b (k + cost c)
unfolding call queue_call retrieve_all retrieve_as_string
call-Agrees (put bytes) b k v h l m = put-Agrees bytes b k v h l m
call-Agrees (skip n) b k v h l m = skip-Agrees n b (k + 0) v (omega arith)
call-Agrees clear b k v h l m =
    both [] (retrieve_all b) refl (rw contents-retrieve_all) (retrieve_all-IsValid b v)
      (omega arith)
call-Agrees take_all b k v h l m =
    let (string, empty, valid) = retrieve_as_string_lem b v in
    both _ _ refl (rw (string, empty)) valid (omega arith)

-- A valid buffer gives any sequence of calls the strings that the queue of its bytes gives, fails
-- an assertion where the queue does, and ends with the bytes that the queue holds, as long as
-- the bytes put in, counted from the write index or the front part, fit into the largest vector.
pub run_refines :
    (cs : List Call) (b : Buffer) (k : ℕ)
    → IsValid b
    → b.writer_index ≤ k
    → cheap_prepend ≤ k
    → k + total cs ≤ max_size
    → view (run call cs b) ≡ run queue_call cs (contents b)
unfolding run
run_refines [] b k v h l m = refl
run_refines (c ∷ cs) b k v h l m = elim (call-Agrees c b k v h l (omega arith)) [
  | both out b' e q v' h' ↦
      rw (e, q, ← run_refines cs b' (k + cost c) v' h' (omega arith) (omega arith))
        (view_then out (run call cs b'))
  | neither e q ↦ rw (e, q)
]
