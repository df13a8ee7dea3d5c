-- ===== src/Connector/Steps.antt =====
-- The connector over any sequence of events: its owner's calls, its timer, and what the poller
-- reports for its channel.
use cppnetool.Prelude.{ℕ, ◌≡◌, refl, sym, ◌∙◌, subst, Bool, true, false, arith}
use cppnetool.Prelude.Result.{ok}
use cppnetool.Connector.{
  Connector, new, Outcome, start, fire, restart, stop, handle_write, handle_error,
  init_retry_delay_ms, disconnected,
}
use cppnetool.Connector.Sockets.{
  IsValid, idle, busy, count, held, start_in_loop-IsValid, handle_write-IsValid,
  handle_error-IsValid,
}

-- The owner starts and restarts a connector that is neither connecting nor waiting for its timer.
pub data Step : Connector → Connector → Type 0 where
  starts :
      (sockfd : ℕ) (outcome : Outcome) (c : Connector)
      → c.watched ≡ false
      → c.timer_pending ≡ false
      → Step c (start sockfd outcome c)
  restarts :
      (sockfd : ℕ) (outcome : Outcome) (c : Connector)
      → c.watched ≡ false
      → c.timer_pending ≡ false
      → Step c (restart sockfd outcome c)
  stops : (c : Connector) → Step c (stop c)
  fires :
      (sockfd : ℕ) (outcome : Outcome) (c : Connector)
      → c.timer_pending ≡ true
      → Step c (fire sockfd outcome c)
  writes :
      (error self_connect : Bool) (c c' : Connector)
      → c.watched ≡ true
      → handle_write error self_connect c ≡ ok c'
      → Step c c'
  errors : (c c' : Connector) → c.watched ≡ true → handle_error c ≡ ok c' → Step c c'

pub data Reaches : Connector → Connector → Type 0 where
  here : (c : Connector) → Reaches c c
  next : (c d e : Connector) → Reaches c d → Step d e → Reaches c e

pub new-IsValid : IsValid new
unfolding new count held
new-IsValid =
    idle (record { balance = λ x. refl; delay_low = omega arith; delay_high = omega arith }) refl
      refl

Step-IsValid : {c d : Connector} → Step c d → IsValid c → IsValid d
unfolding start fire restart stop
Step-IsValid (starts sockfd outcome c w t) (idle a v s) =
    start_in_loop-IsValid sockfd outcome (record c { connect = true })
      (record { balance = a.balance; delay_low = a.delay_low; delay_high = a.delay_high }) w s t
Step-IsValid (starts sockfd outcome c w t) (busy fd a v ch st u) = absurd (cc (w, v))
Step-IsValid (restarts sockfd outcome c w t) (idle a v s) =
    start_in_loop-IsValid sockfd outcome
      (record c { state = disconnected; retry_delay_ms = init_retry_delay_ms; connect = true })
      (record { balance = a.balance; delay_low = omega arith; delay_high = omega arith }) w refl t
Step-IsValid (restarts sockfd outcome c w t) (busy fd a v ch st u) = absurd (cc (w, v))
Step-IsValid (stops c) (idle a v s) =
    idle (record { balance = a.balance; delay_low = a.delay_low; delay_high = a.delay_high }) v s
Step-IsValid (stops c) (busy fd a v ch st u) =
    busy fd (record { balance = a.balance; delay_low = a.delay_low; delay_high = a.delay_high }) v
      ch st refl
Step-IsValid (fires sockfd outcome c t) (idle a v s) =
    start_in_loop-IsValid sockfd outcome (record c { timer_pending = false })
      (record { balance = a.balance; delay_low = a.delay_low; delay_high = a.delay_high }) v s refl
Step-IsValid (fires sockfd outcome c t) (busy fd a v ch st u) = absurd (cc (t, u))
Step-IsValid (writes error self_connect c c' w e) h =
    let (d, f, valid) = handle_write-IsValid error self_connect c h w in
    subst IsValid (cc (sym f ∙ e)) valid
Step-IsValid (errors c c' w e) h =
    let (d, f, valid) = handle_error-IsValid c h w in subst IsValid (cc (sym f ∙ e)) valid

-- From a state where it is so, over any events of a connector that is not started again while it
-- connects or waits for its timer,
-- every socket that it makes is closed once, handed over once, or the one being connected, and never
-- two of these; the retry delay stays between its initial and its largest value, and the channel is
-- watched exactly while it is connecting.
pub Reaches-IsValid : {c d : Connector} → Reaches c d → IsValid c → IsValid d
Reaches-IsValid (here c) h = h
Reaches-IsValid (next c d e r s) h = Step-IsValid s (Reaches-IsValid r h)
