-- ===== src/EventLoop/Wakeup.antt =====
-- Whether a functor that waits will be found: the wakeups of `queueInLoop`.
use cppnetool.Prelude.{
  ℕ, ◌≤◌, ◌≡◌, refl, sym, ◌∙◌, ◌⊎◌, Bool, true, false, List, [], inl, inr, arith,
}
use cppnetool.EventLoop.{
  EventLoop, wake_if, begin_functor, read_wakeup, take_functors, finish, wakeup,
}
use cppnetool.EventLoop.Steps.{
  Step, Reaches, pushes_elsewhere, wakes_elsewhere, pushes_here, asks, settles, reads, takes, runs,
  finishes, here, next,
}

-- Functors wait only while the descriptor is readable or has just been read, or a thread that pushed one
-- is going to write it.
pub record IsAwake (l : EventLoop) : Type 0 where
  pub found :
      (l.pending ≡ [])
      ⊎ ((1 ≤ l.wakeups) ⊎ ((l.woken ≡ true) ⊎ ((1 ≤ l.posting) ⊎ (l.owes ≡ true))))
  pub one_round : (l.woken ≡ true) → l.calling ≡ false
  pub in_round : (l.owes ≡ true) → l.calling ≡ true

Step-IsAwake :
    (behaviour : ℕ → List ℕ) (foreign : Bool) {l m : EventLoop}
    → Step behaviour foreign false l m
    → IsAwake l
    → IsAwake m
unfolding wake_if wakeup begin_functor read_wakeup take_functors finish
Step-IsAwake behaviour foreign (pushes_elsewhere f l e) h = record {
  found = inr (inr (inr (inl (omega arith))));
  one_round = h.one_round;
  in_round = h.in_round;
}
Step-IsAwake behaviour foreign (wakes_elsewhere l e) h = record {
  found = inr (inl (omega arith));
  one_round = h.one_round;
  in_round = h.in_round;
}
Step-IsAwake behaviour foreign (pushes_here f l e c w o) h = absurd (cc (e))
Step-IsAwake behaviour foreign (asks f fs l c o a) h = record {
  found = inr (inr (inr (inr refl)));
  one_round = h.one_round;
  in_round = λ k. c;
}
Step-IsAwake behaviour foreign (settles l o) h =
    let c = h.in_round o in
    rw (wake_if, c)
      (record {
        found = inr (inl (omega arith));
        one_round = λ k. sym c ∙ h.one_round k;
        in_round = λ k. refl;
      })
Step-IsAwake behaviour foreign (reads l w c k o) h = record {
  found = inr (inr (inl refl));
  one_round = λ e. c;
  in_round = λ e. absurd (cc (e, o));
}
Step-IsAwake behaviour foreign (takes l w e) h = record {
  found = inl refl;
  one_round = λ e. absurd (cc (e));
  in_round = λ e. refl;
}
Step-IsAwake behaviour foreign (runs l f rest c o a e) h = record {
  found = h.found;
  one_round = h.one_round;
  in_round = h.in_round;
}
Step-IsAwake behaviour foreign (finishes l c o a e) h = record {
  found = h.found;
  one_round = λ e. refl;
  in_round = λ e. absurd (cc (e, o));
}

-- Where the callbacks of the loop's own channels queue nothing, no wakeup is lost in any interleaving
-- with other threads and with functors that queue others, from a state where none is lost: while
-- functors wait, the wakeup descriptor is readable or was read for them just now, or a thread that has
-- pushed one has still to write it.
pub Reaches-IsAwake :
    (behaviour : ℕ → List ℕ) (foreign : Bool) {l m : EventLoop}
    → Reaches behaviour foreign false l m
    → IsAwake l
    → IsAwake m
Reaches-IsAwake behaviour foreign (here l) h = h
Reaches-IsAwake behaviour foreign (next l m n r s) h =
    Step-IsAwake behaviour foreign s (Reaches-IsAwake behaviour foreign r h)

-- The loop sleeps: nothing has woken it or is going to, and it is in no round of functors.
pub record IsAsleep (l : EventLoop) : Type 0 where
  pub no_wakeup : l.wakeups ≡ 0
  pub not_calling : l.calling ≡ false
  pub not_woken : l.woken ≡ false
  pub none_posting : l.posting ≡ 0

abbrev Sleeps : List ℕ → EventLoop → Type 0
Sleeps done l = IsAsleep l × (l.ran ≡ done)

Step-Sleeps :
    (behaviour : ℕ → List ℕ) (local : Bool) (done : List ℕ) {l m : EventLoop}
    → Step behaviour false local l m
    → Sleeps done l
    → Sleeps done m
unfolding wake_if wakeup
Step-Sleeps behaviour local done (pushes_elsewhere f l e) (h, r) = absurd (cc (e))
Step-Sleeps behaviour local done (wakes_elsewhere l e) (h, r) =
    absurd (omega (arith, h.none_posting, e))
Step-Sleeps behaviour local done (pushes_here f l e c w o) (h, r) = (
  record {
    no_wakeup = h.no_wakeup;
    not_calling = h.not_calling;
    not_woken = h.not_woken;
    none_posting = h.none_posting;
  },
  r,
)
Step-Sleeps behaviour local done (asks f fs l c o a) (h, r) = absurd (cc (c, h.not_calling))
Step-Sleeps behaviour local done (settles l o) (h, r) =
    rw (wake_if, h.not_calling)
      (
        record {
          no_wakeup = h.no_wakeup;
          not_calling = refl;
          not_woken = h.not_woken;
          none_posting = h.none_posting;
        },
        r,
      )
Step-Sleeps behaviour local done (reads l w c k o) (h, r) = absurd (omega (arith, h.no_wakeup, w))
Step-Sleeps behaviour local done (takes l w e) (h, r) = absurd (cc (w, h.not_woken))
Step-Sleeps behaviour local done (runs l f rest c o a e) (h, r) = absurd (cc (c, h.not_calling))
Step-Sleeps behaviour local done (finishes l c o a e) (h, r) = absurd (cc (c, h.not_calling))

-- A loop that sleeps and is left alone by other threads never runs a functor that the callbacks of its
-- own channels queue, however many they queue: no wakeup is written for them.
pub Reaches-IsAsleep :
    (behaviour : ℕ → List ℕ) (local : Bool) {l m : EventLoop}
    → Reaches behaviour false local l m
    → IsAsleep l
    → IsAsleep m × (m.ran ≡ l.ran)
Reaches-IsAsleep behaviour local (here l) h = (h, refl)
Reaches-IsAsleep behaviour local (next l m n r s) h =
    Step-Sleeps behaviour local l.ran s (Reaches-IsAsleep behaviour local r h)
