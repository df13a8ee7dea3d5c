-- ===== src/Connector/Sockets.antt =====
-- No socket is lost: each one that the connector makes is closed, handed over or being connected.
use cppnetool.Prelude.{
  ℕ, ◌+◌, ◌≤◌, ◌≡◌, refl, sym, ap, ◌∙◌, subst, Bool, true, false, ◌||◌, List, [], ◌∷◌, Option, some,
  none, inl, inr, Bool-cases, ◌==◌, if◌then◌else◌, arith,
}
use cppnetool.Prelude.Result.{ok}
use cppnetool.Connector.{
  Connector, States, connecting, disconnected, connected, Outcome, Verdict, goes_on, tries_again,
  gives_up, verdict, close, start_connecting, retry, after_verdict, try_connect, start_in_loop,
  remove_and_reset_channel, reset_channel, settle, handle_write, handle_error, init_retry_delay_ms,
  max_retry_delay_ms,
}

abbrev pub hit : ℕ → ℕ → ℕ
hit x y = if x == y then 1 else 0

-- How often a descriptor stands in a list.
unfoldable pub count : ℕ → List ℕ → ℕ
count x [] = 0
count x (y ∷ ys) = hit x y + count x ys

-- How often it is the descriptor that is being connected.
unfoldable pub held : ℕ → Option ℕ → ℕ
held x none = 0
held x (some y) = hit x y

abbrev pub is_connecting : States → Bool
is_connecting connecting = true
is_connecting _ = false

-- `busy` is the descriptor that is being connected, where there is one.
pub record Accounts (busy : Option ℕ) (c : Connector) : Type 0 where
  pub balance : (x : ℕ) → count x c.opened ≡ (count x c.closed + (count x c.handed + held x busy))
  pub delay_low : init_retry_delay_ms ≤ c.retry_delay_ms
  pub delay_high : c.retry_delay_ms ≤ max_retry_delay_ms

-- Between two events.
pub data IsValid (c : Connector) : Type 0 where
  idle : Accounts none c → c.watched ≡ false → is_connecting c.state ≡ false → IsValid c
  busy :
      (sockfd : ℕ)
      → Accounts (some sockfd) c
      → c.watched ≡ true
      → c.channel ≡ some sockfd
      → c.state ≡ connecting
      → c.timer_pending ≡ false
      → IsValid c

pub retry-Accounts :
    (sockfd : ℕ) (c : Connector) → Accounts (some sockfd) c → Accounts none (retry sockfd c)
unfolding count held retry
retry-Accounts sockfd c a = elim (Bool-cases c.connect) [
  | inl p ↦
      rw (retry, p)
        (record {
          balance = λ x. omega (arith, a.balance x);
          delay_low = omega (arith, a.delay_low);
          delay_high = omega arith;
        })
  | inr p ↦
      rw (retry, p)
        (record {
          balance = λ x. omega (arith, a.balance x);
          delay_low = a.delay_low;
          delay_high = a.delay_high;
        })
]

retry-watched : (sockfd : ℕ) (c : Connector) → (retry sockfd c).watched ≡ c.watched
unfolding retry
retry-watched sockfd c = elim (Bool-cases c.connect) [ inl p ↦ rw p refl | inr p ↦ rw p refl ]

retry-state : (sockfd : ℕ) (c : Connector) → (retry sockfd c).state ≡ disconnected
unfolding retry
retry-state sockfd c = elim (Bool-cases c.connect) [ inl p ↦ rw p refl | inr p ↦ rw p refl ]

pub retry-IsValid :
    (sockfd : ℕ) (c : Connector)
    → Accounts (some sockfd) c
    → c.watched ≡ false
    → IsValid (retry sockfd c)
retry-IsValid sockfd c a w =
    idle (retry-Accounts sockfd c a) (retry-watched sockfd c ∙ w) (rw (retry-state sockfd c) refl)

close-Accounts :
    (sockfd : ℕ) (c : Connector) → Accounts (some sockfd) c → Accounts none (close sockfd c)
unfolding count held
close-Accounts sockfd c a = record {
  balance = λ x. omega (arith, a.balance x);
  delay_low = a.delay_low;
  delay_high = a.delay_high;
}

-- A socket that is made is the one that is being connected, until it is known how that goes on.
open-Accounts :
    (sockfd : ℕ) (c : Connector)
    → Accounts none c
    → Accounts (some sockfd) (record c { opened = sockfd ∷ c.opened })
unfolding count held
open-Accounts sockfd c a = record {
  balance = λ x. omega (arith, a.balance x);
  delay_low = a.delay_low;
  delay_high = a.delay_high;
}

after_verdict-IsValid :
    (v : Verdict) (sockfd : ℕ) (c : Connector)
    → Accounts (some sockfd) c
    → c.watched ≡ false
    → is_connecting c.state ≡ false
    → c.timer_pending ≡ false
    → IsValid (after_verdict v sockfd c)
unfolding after_verdict start_connecting
after_verdict-IsValid goes_on sockfd c a w s t =
    busy sockfd (record { balance = a.balance; delay_low = a.delay_low; delay_high = a.delay_high })
      refl refl refl t
after_verdict-IsValid tries_again sockfd c a w s t = retry-IsValid sockfd c a w
after_verdict-IsValid gives_up sockfd c a w s t = idle (close-Accounts sockfd c a) w s

pub start_in_loop-IsValid :
    (sockfd : ℕ) (outcome : Outcome) (c : Connector)
    → Accounts none c
    → c.watched ≡ false
    → is_connecting c.state ≡ false
    → c.timer_pending ≡ false
    → IsValid (start_in_loop sockfd outcome c)
unfolding start_in_loop try_connect
start_in_loop-IsValid sockfd outcome c a w s t = elim (Bool-cases c.connect) [
  | inl p ↦ subst IsValid (sym (start_in_loop-on p)) (
      after_verdict-IsValid (verdict outcome) sockfd (record c { opened = sockfd ∷ c.opened })
        (open-Accounts sockfd c a) w s t)
  | inr p ↦ subst IsValid (sym (start_in_loop-off p)) (idle a w s)
]
  where
    start_in_loop-on :
        c.connect ≡ true → start_in_loop sockfd outcome c ≡ try_connect sockfd outcome c
    start_in_loop-on p = ap (λ b. if b then try_connect sockfd outcome c else c) p

    start_in_loop-off : c.connect ≡ false → start_in_loop sockfd outcome c ≡ c
    start_in_loop-off p = ap (λ b. if b then try_connect sockfd outcome c else c) p

-- The connector after an attempt.
record IsIdle (c : Connector) : Type 0 where
  accounts : Accounts none c
  unwatched : c.watched ≡ false
  settled : is_connecting c.state ≡ false

reset_channel-IsValid : (c : Connector) → IsIdle c → IsValid (reset_channel c)
reset_channel-IsValid c i =
    idle
      (record {
        balance = i.accounts.balance;
        delay_low = i.accounts.delay_low;
        delay_high = i.accounts.delay_high;
      })
      i.unwatched i.settled

retry-IsIdle :
    (sockfd : ℕ) (c : Connector)
    → Accounts (some sockfd) c
    → c.watched ≡ false
    → IsIdle (retry sockfd c)
retry-IsIdle sockfd c a w = record {
  accounts = retry-Accounts sockfd c a;
  unwatched = retry-watched sockfd c ∙ w;
  settled = rw (retry-state sockfd c) refl;
}

handed-IsIdle :
    (sockfd : ℕ) (c : Connector)
    → Accounts (some sockfd) c
    → c.watched ≡ false
    → IsIdle (record c { state = connected; handed = sockfd ∷ c.handed })
unfolding count held
handed-IsIdle sockfd c a w = record {
  accounts = record {
    balance = λ x. omega (arith, a.balance x);
    delay_low = a.delay_low;
    delay_high = a.delay_high;
  };
  unwatched = w;
  settled = refl;
}

closed-IsIdle :
    (sockfd : ℕ) (c : Connector)
    → Accounts (some sockfd) c
    → c.watched ≡ false
    → IsIdle (close sockfd (record c { state = connected }))
unfolding count held
closed-IsIdle sockfd c a w = record {
  accounts = record {
    balance = λ x. omega (arith, a.balance x);
    delay_low = a.delay_low;
    delay_high = a.delay_high;
  };
  unwatched = w;
  settled = refl;
}

if-IsIdle : (b : Bool) (c d : Connector) → IsIdle c → IsIdle d → IsIdle (if b then c else d)
if-IsIdle true c d h k = h
if-IsIdle false c d h k = k

settle-IsIdle :
    (error self_connect : Bool) (sockfd : ℕ) (c : Connector)
    → Accounts (some sockfd) c
    → c.watched ≡ false
    → IsIdle (settle error self_connect sockfd c)
unfolding settle
settle-IsIdle error self_connect sockfd c a w =
    if-IsIdle (error || self_connect) _ _ (retry-IsIdle sockfd c a w)
      (if-IsIdle c.connect _ _ (handed-IsIdle sockfd c a w) (closed-IsIdle sockfd c a w))

-- What holds when the poller reports the channel writable: `handleWrite` succeeds, and afterwards the
-- socket is handed over or closed, and the connector is not connecting.
pub handle_write-IsValid :
    (error self_connect : Bool) (c : Connector)
    → IsValid c
    → c.watched ≡ true
    → (c' : Connector) × (handle_write error self_connect c ≡ ok c') × IsValid c'
unfolding handle_write remove_and_reset_channel
handle_write-IsValid error self_connect c (idle a v s) w = absurd (cc (v, w))
handle_write-IsValid error self_connect c (busy sockfd a v ch st t) w =
    let c' = record c { watched = false } in
    let a' : Accounts (some sockfd) c' = record {
      balance = a.balance;
      delay_low = a.delay_low;
      delay_high = a.delay_high;
    } in
    (
      reset_channel (settle error self_connect sockfd c'),
      rw (st, ch, v) refl,
      reset_channel-IsValid _ (settle-IsIdle error self_connect sockfd c' a' refl),
    )

pub handle_error-IsValid :
    (c : Connector)
    → IsValid c
    → c.watched ≡ true
    → (c' : Connector) × (handle_error c ≡ ok c') × IsValid c'
unfolding handle_error remove_and_reset_channel
handle_error-IsValid c (idle a v s) w = absurd (cc (v, w))
handle_error-IsValid c (busy sockfd a v ch st t) w =
    let c' = record c { watched = false } in
    let a' : Accounts (some sockfd) c' = record {
      balance = a.balance;
      delay_low = a.delay_low;
      delay_high = a.delay_high;
    } in
    (retry sockfd c', rw (ch, v) refl, retry-IsValid sockfd c' a' refl)
