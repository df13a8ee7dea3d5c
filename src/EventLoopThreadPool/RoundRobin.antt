-- ===== src/EventLoopThreadPool/RoundRobin.antt =====
-- The loops come in turn.
use native.Mathlib.Nat.{mod-lt, mod-eq_of_lt, mod_self, mod-add-mod}
use cppnetool.Prelude.{
  ℕ, zero, suc, ◌+◌, ◌%◌, ◌<◌, ◌≡◌, refl, sym, ap, ◌∙◌, inl, inr, List, [], ◌∷◌, leb, if◌then◌else◌,
  length, get_elem?, get_elem?-lt, get_elem?_of_lt, some, Bool-cases, arith,
}
use cppnetool.Prelude.Result.{Result, ok, ◌>>=◌}
use cppnetool.EventLoopThreadPool.{EventLoopThreadPool, get_next_loop}

-- The pool after `n` calls of `getNextLoop`.
unfoldable pub after_calls : ℕ → EventLoopThreadPool → Result EventLoopThreadPool
after_calls zero p = ok p
after_calls (suc n) p = do (loop, p') ← get_next_loop p; after_calls n p'

-- The loop that a call gives.
abbrev pub loop_given : EventLoopThreadPool → Result ℕ
loop_given p = do (loop, p') ← get_next_loop p; ok loop

abbrev pub advanced : ℕ → EventLoopThreadPool → EventLoopThreadPool
advanced n p = record p { next = (p.next + n) % length p.loops }

wraps :
    (size next : ℕ)
    → next < size
    → (if leb size (suc next) then 0 else suc next) ≡ (next + 1) % size
wraps size next h = elim (Bool-cases (leb size (suc next))) [
  | inl last ↦
      let end : next + 1 ≡ size = ground (arith, last) in rw (last, end) (sym (mod_self size))
  | inr more ↦
      let one_more : suc next ≡ next + 1 = omega arith in
      rw more (one_more ∙ sym (mod-eq_of_lt (ground (arith, more))))
]

get_next_loop-at :
    (p : EventLoopThreadPool) (xs : List ℕ) {loop : ℕ}
    → get_elem? xs p.next ≡ some loop
    → get_next_loop (record p { loops = xs })
      ≡ ok (loop, record p { loops = xs; next = (p.next + 1) % length xs })
unfolding get_next_loop
get_next_loop-at p [] h = absurd (cc (h))
get_next_loop-at p (x ∷ xs) h =
    rw (h, wraps (length (x ∷ xs)) p.next (get_elem?-lt (x ∷ xs) p.next h)) refl

get_next_loop-eq :
    (p : EventLoopThreadPool) {loop : ℕ}
    → get_elem? p.loops p.next ≡ some loop
    → get_next_loop p ≡ ok (loop, advanced 1 p)
get_next_loop-eq p h = get_next_loop-at p p.loops h

plus_zero : (a : ℕ) → a ≡ a + 0
plus_zero a = omega arith

plus_suc : (a n : ℕ) → a + 1 + n ≡ a + suc n
plus_suc a n = omega arith

after_calls-eq :
    (n : ℕ) (p : EventLoopThreadPool)
    → p.next < length p.loops
    → after_calls n p ≡ ok (advanced n p)
unfolding after_calls
after_calls-eq zero p h =
    ap (λ k. ok (record p { next = k }))
      (sym (mod-eq_of_lt h) ∙ ap (λ k. k % length p.loops) (plus_zero p.next))
after_calls-eq (suc n) p h =
    let (loop, e) = get_elem?_of_lt p.loops p.next h in
    rw (get_next_loop-eq p e) (
      after_calls-eq n (advanced 1 p) (mod-lt (p.next + 1) (omega (arith, h)))
      ∙ ap (λ k. ok (record p { next = k }))
          (mod-add-mod (p.next + 1) (length p.loops) n
            ∙ ap (λ k. k % length p.loops) (plus_suc p.next n)))

-- Where the pool has loops, no call of `getNextLoop` fails, and the call after `n` others gives the
-- loop that stands `n` places behind the one in turn, from the first one again after the last.
pub round_robin :
    (n : ℕ) (p : EventLoopThreadPool)
    → p.next < length p.loops
    → (p' : EventLoopThreadPool) × (loop : ℕ) × (after_calls n p ≡ ok p')
      × (get_elem? p.loops ((p.next + n) % length p.loops) ≡ some loop)
      × (loop_given p' ≡ ok loop)
round_robin n p h =
    let (loop, e) =
      get_elem?_of_lt p.loops ((p.next + n) % length p.loops)
        (mod-lt (p.next + n) (omega (arith, h))) in
    (advanced n p, loop, after_calls-eq n p h, e, rw (get_next_loop-eq (advanced n p) e) refl)
