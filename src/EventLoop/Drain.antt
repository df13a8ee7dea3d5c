-- ===== src/EventLoop/Drain.antt =====
-- One round of `handleRead` with no other thread in between.
use cppnetool.Prelude.{
  ℕ, ◌+◌, ◌≡◌, refl, sym, ◌∙◌, true, false, List, [], ◌∷◌, ◌++◌, append-nil, append_assoc, length,
  length-append, arith,
}
use cppnetool.EventLoop.{
  EventLoop, queue_in_loop, wake_if, queue_all, run_functor, read_wakeup, take_functors, finish,
  wakeup, run_each, do_pending_functors, handle_read,
}

-- What the functors of a list queue, one after the other.
unfoldable pub queued_by : (ℕ → List ℕ) → List ℕ → List ℕ
queued_by behaviour [] = []
queued_by behaviour (f ∷ fs) = behaviour f ++ queued_by behaviour fs

-- What queueing and running do to the fields, while `callingPendingFunctors_` holds.
pub record Ran (done added : List ℕ) (l m : EventLoop) : Type 0 where
  pub ran_eq : m.ran ≡ l.ran ++ done
  pub pending_eq : m.pending ≡ l.pending ++ added
  pub wakeups_eq : m.wakeups ≡ l.wakeups + length added
  pub calling_eq : m.calling ≡ true
  pub woken_eq : m.woken ≡ l.woken

Ran-then :
    {done added done' added' : List ℕ} {l m n : EventLoop}
    → Ran done added l m
    → Ran done' added' m n
    → Ran (done ++ done') (added ++ added') l n
Ran-then {done} {added} {done'} {added'} {l} {m} {n} h k = record {
  ran_eq = rw (k.ran_eq, h.ran_eq) (append_assoc l.ran done done');
  pending_eq = rw (k.pending_eq, h.pending_eq) (append_assoc l.pending added added');
  wakeups_eq = omega (arith, k.wakeups_eq, h.wakeups_eq, length-append added added');
  calling_eq = k.calling_eq;
  woken_eq = k.woken_eq ∙ h.woken_eq;
}

queue_in_loop-Ran :
    (f : ℕ) (l : EventLoop) → l.calling ≡ true → Ran [] (f ∷ []) l (queue_in_loop true f l)
unfolding queue_in_loop wake_if wakeup
queue_in_loop-Ran f l c =
    rw (queue_in_loop, wake_if, c)
      (record {
        ran_eq = sym (append-nil l.ran);
        pending_eq = refl;
        wakeups_eq = omega arith;
        calling_eq = refl;
        woken_eq = refl;
      })

queue_all-Ran : (fs : List ℕ) (l : EventLoop) → l.calling ≡ true → Ran [] fs l (queue_all fs l)
unfolding queue_all
queue_all-Ran [] l c = record {
  ran_eq = sym (append-nil l.ran);
  pending_eq = sym (append-nil l.pending);
  wakeups_eq = omega arith;
  calling_eq = c;
  woken_eq = refl;
}
queue_all-Ran (f ∷ fs) l c =
    let h = queue_in_loop-Ran f l c in
    Ran-then h (queue_all-Ran fs (queue_in_loop true f l) h.calling_eq)

run_each-Ran :
    (behaviour : ℕ → List ℕ) (fs : List ℕ) (l : EventLoop)
    → l.calling ≡ true
    → Ran fs (queued_by behaviour fs) l (run_each behaviour fs l)
unfolding run_each queued_by run_functor
run_each-Ran behaviour [] l c = record {
  ran_eq = sym (append-nil l.ran);
  pending_eq = sym (append-nil l.pending);
  wakeups_eq = omega arith;
  calling_eq = c;
  woken_eq = refl;
}
run_each-Ran behaviour (f ∷ fs) l c =
    let q = queue_all-Ran (behaviour f) (record l { running = fs; ran = l.ran ++ f ∷ [] }) c in
    let r = run_each-Ran behaviour fs (run_functor behaviour f fs l) q.calling_eq in
    let first : Ran (f ∷ []) [] l (record l { running = fs; ran = l.ran ++ f ∷ [] }) = record {
      ran_eq = refl;
      pending_eq = sym (append-nil l.pending);
      wakeups_eq = omega arith;
      calling_eq = c;
      woken_eq = refl;
    } in
    Ran-then (Ran-then first q) r

-- A round runs every functor that waits, in order, and leaves those that they queue, in order, for
-- the next round, for which the descriptor is readable exactly if there are any.
pub handle_read_lem :
    (behaviour : ℕ → List ℕ) (l : EventLoop)
    → let m = handle_read behaviour l in
      (m.ran ≡ l.ran ++ l.pending)
      × (m.pending ≡ queued_by behaviour l.pending)
      × (m.wakeups ≡ length (queued_by behaviour l.pending))
      × (m.calling ≡ false)
unfolding handle_read do_pending_functors read_wakeup take_functors finish
handle_read_lem behaviour l =
    let r = run_each-Ran behaviour l.pending (take_functors (read_wakeup l)) refl in
    (r.ran_eq, r.pending_eq, r.wakeups_eq ∙ omega arith, refl)
