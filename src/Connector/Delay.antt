-- ===== src/Connector/Delay.antt =====
-- How the retry delay grows.
use cppnetool.Prelude.{
  ℕ, zero, suc, ◌*◌, ◌^◌, ◌≡◌, refl, ◌∙◌, min, true, List, [], ◌∷◌, arith, length,
}
use native.Mathlib.Nat.{pow-suc}
use cppnetool.Connector.{
  Connector, Outcome, again, addr_in_use, addr_not_avail, conn_refused, net_unreach, start,
  disconnected, try_connect, after_verdict, retry, fire, start_in_loop, init_retry_delay_ms,
  max_retry_delay_ms,
}

-- The answers of `connect` that are worth another attempt, by their names in errno.h: EAGAIN,
-- EADDRINUSE, EADDRNOTAVAIL, ECONNREFUSED and ENETUNREACH.
pub data IsPassing : Outcome → Type 0 where
  eagain : IsPassing again
  eaddrinuse : IsPassing addr_in_use
  eaddrnotavail : IsPassing addr_not_avail
  econnrefused : IsPassing conn_refused
  enetunreach : IsPassing net_unreach

abbrev pub AllPassing : List Outcome → Type 0
AllPassing [] = Unit {0}
AllPassing (o ∷ os) = IsPassing o × AllPassing os

-- Attempts in a row, the latest first: `start` makes the first one, each other one is made when the
-- timer fires. The sockets are numbered.
unfoldable pub attempts : Outcome → List Outcome → Connector → Connector
attempts first [] c = start 0 first c
attempts last (o ∷ os) c = fire (suc (length os)) last (attempts o os c)

abbrev delay_after : ℕ → ℕ
delay_after n = min (init_retry_delay_ms * 2 ^ n) max_retry_delay_ms

-- The delays of the attempts, the latest first.
unfoldable pub delays_of : ℕ → List ℕ
delays_of zero = []
delays_of (suc n) = delay_after n ∷ delays_of n

grows : (n : ℕ) → min (delay_after n * 2) max_retry_delay_ms ≡ delay_after (suc n)
grows n = omega (arith, pow-suc 2 n)

-- What an attempt that failed for a passing reason leaves.
abbrev Failed : Connector → Connector → Type 0
Failed c d =
    (d.connect ≡ true)
    × (d.state ≡ disconnected)
    × (d.timer_pending ≡ true)
    × (d.retry_delay_ms ≡ min (c.retry_delay_ms * 2) max_retry_delay_ms)
    × (d.delays ≡ c.retry_delay_ms ∷ c.delays)

fire-IsPassing :
    (sockfd : ℕ) (o : Outcome) (c : Connector)
    → IsPassing o
    → c.connect ≡ true
    → Failed c (fire sockfd o c)
unfolding fire start_in_loop try_connect after_verdict retry
fire-IsPassing sockfd _ c eagain h = rw h (refl, refl, refl, refl, refl)
fire-IsPassing sockfd _ c eaddrinuse h = rw h (refl, refl, refl, refl, refl)
fire-IsPassing sockfd _ c eaddrnotavail h = rw h (refl, refl, refl, refl, refl)
fire-IsPassing sockfd _ c econnrefused h = rw h (refl, refl, refl, refl, refl)
fire-IsPassing sockfd _ c enetunreach h = rw h (refl, refl, refl, refl, refl)

start-IsPassing :
    (sockfd : ℕ) (o : Outcome) (c : Connector) → IsPassing o → Failed c (start sockfd o c)
unfolding start start_in_loop try_connect after_verdict retry
start-IsPassing sockfd _ c eagain = (refl, refl, refl, refl, refl)
start-IsPassing sockfd _ c eaddrinuse = (refl, refl, refl, refl, refl)
start-IsPassing sockfd _ c eaddrnotavail = (refl, refl, refl, refl, refl)
start-IsPassing sockfd _ c econnrefused = (refl, refl, refl, refl, refl)
start-IsPassing sockfd _ c enetunreach = (refl, refl, refl, refl, refl)

-- After attempts in a row that all failed with EAGAIN, EADDRINUSE, EADDRNOTAVAIL, ECONNREFUSED or
-- ENETUNREACH, from a connector with the initial delay that has not waited yet, the connector has asked
-- for timers of 500 ms, 1000 ms, and so on, twice as long each time and never more than 30 seconds, and
-- the timer of the next attempt is pending.
pub attempts_lem :
    (last : Outcome) (os : List Outcome) (c : Connector)
    → IsPassing last
    → AllPassing os
    → c.retry_delay_ms ≡ init_retry_delay_ms
    → c.delays ≡ []
    → let d = attempts last os c in
      let n = suc (length os) in
      (d.connect ≡ true)
      × (d.state ≡ disconnected)
      × (d.timer_pending ≡ true)
      × (d.retry_delay_ms ≡ delay_after n)
      × (d.delays ≡ delays_of n)
unfolding attempts delays_of
attempts_lem last [] c p ps k e =
    let (on, state, pending, delay, waited) = start-IsPassing 0 last c p in
    (on, state, pending, delay ∙ rw k (grows 0), waited ∙ rw (k, e) refl)
attempts_lem last (o ∷ os) c p ps k e =
    let (on, state, pending, delay, waited) = attempts_lem o os c ps.0 ps.1 k e in
    let (on', state', pending', delay', waited') =
      fire-IsPassing (suc (length os)) last (attempts o os c) p on in
    (
      on',
      state',
      pending',
      delay' ∙ rw delay (grows (suc (length os))),
      waited' ∙ rw (delay, waited) refl,
    )
