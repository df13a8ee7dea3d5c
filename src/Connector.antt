-- ===== src/Connector.antt =====
-- cppnetool/net/Connector.h and Connector.cc: connecting to a server, with a growing delay between
-- two attempts. All of it runs in the loop's thread. The channel is known by its descriptor, and
-- its registration with the poller is in `Poller`.
pub mod Sockets
pub mod Steps
pub mod Delay
mod Examples
use cppnetool.Prelude.{
  ℕ, ◌*◌, min, Bool, true, false, ◌||◌, List, [], ◌∷◌, Option, some, none, if◌then◌else◌,
}
use cppnetool.Prelude.Result.{Result, ok, err, assertion, need, check, ◌>>=◌, ◌>>◌}

-- `States`
pub data States : Type 0 where
  disconnected connecting connected : States

-- What `connect` gives, 0 or an `errno`.
pub data Outcome : Type 0 where
  success in_progress interrupted is_conn : Outcome
  again addr_in_use addr_not_avail conn_refused net_unreach : Outcome
  access perm af_no_support already bad_fd fault not_sock other : Outcome

abbrev pub max_retry_delay_ms : ℕ
max_retry_delay_ms = 30000

abbrev pub init_retry_delay_ms : ℕ
init_retry_delay_ms = 500

-- `watched` tells whether `channel` is registered for writing, and `timer_pending` whether the
-- timer of `timerId_` is still to fire. `delays` are the delays of the timers asked for, `opened`
-- the sockets that were made, `closed` those that were closed and `handed` those that went to
-- `newConnectionCallback_`, all of them with the latest first.
pub record Connector : Type 0 where
  pub connect : Bool
  pub state : States
  pub channel : Option ℕ
  pub watched : Bool
  pub retry_delay_ms : ℕ
  pub timer_pending : Bool
  pub delays : List ℕ
  pub opened : List ℕ
  pub closed : List ℕ
  pub handed : List ℕ

unfoldable pub new : Connector
new = record {
  connect = false;
  state = disconnected;
  channel = none;
  watched = false;
  retry_delay_ms = init_retry_delay_ms;
  timer_pending = false;
  delays = [];
  opened = [];
  closed = [];
  handed = [];
}

abbrev pub close : ℕ → Connector → Connector
close sockfd c = record c { closed = sockfd ∷ c.closed }

-- A new channel for the socket, which is watched for writing.
unfoldable pub start_connecting : ℕ → Connector → Connector
start_connecting sockfd c = record c { state = connecting; channel = some sockfd; watched = true }

unfoldable pub retry : ℕ → Connector → Connector
retry sockfd c =
    let c' = close sockfd (record c { state = disconnected }) in
    if c'.connect
    then record c' {
      timer_pending = true;
      delays = c'.retry_delay_ms ∷ c'.delays;
      retry_delay_ms = min (c'.retry_delay_ms * 2) max_retry_delay_ms;
    }
    else c'

-- The three ways that the switch of `connect` goes on.
pub data Verdict : Type 0 where
  goes_on tries_again gives_up : Verdict

abbrev pub verdict : Outcome → Verdict
verdict success = goes_on
verdict in_progress = goes_on
verdict interrupted = goes_on
verdict is_conn = goes_on
verdict again = tries_again
verdict addr_in_use = tries_again
verdict addr_not_avail = tries_again
verdict conn_refused = tries_again
verdict net_unreach = tries_again
verdict _ = gives_up

unfoldable pub after_verdict : Verdict → ℕ → Connector → Connector
after_verdict goes_on sockfd c = start_connecting sockfd c
after_verdict tries_again sockfd c = retry sockfd c
after_verdict gives_up sockfd c = close sockfd c

-- `connect`, with the new socket and what `connect` gives for it.
unfoldable pub try_connect : ℕ → Outcome → Connector → Connector
try_connect sockfd outcome c =
    after_verdict (verdict outcome) sockfd (record c { opened = sockfd ∷ c.opened })

unfoldable pub start_in_loop : ℕ → Outcome → Connector → Connector
start_in_loop sockfd outcome c = if c.connect then try_connect sockfd outcome c else c

unfoldable pub start : ℕ → Outcome → Connector → Connector
start sockfd outcome c = start_in_loop sockfd outcome (record c { connect = true })

-- The timer of `retry` calls `startInLoop`.
unfoldable pub fire : ℕ → Outcome → Connector → Connector
fire sockfd outcome c = start_in_loop sockfd outcome (record c { timer_pending = false })

unfoldable pub restart : ℕ → Outcome → Connector → Connector
restart sockfd outcome c =
    start_in_loop sockfd outcome
      (record c { state = disconnected; retry_delay_ms = init_retry_delay_ms; connect = true })

unfoldable pub stop : Connector → Connector
stop c = record c { connect = false; timer_pending = false }

-- The descriptor of the channel, which is no longer watched; the poller asserts that it was.
unfoldable pub remove_and_reset_channel : Connector → Result (ℕ × Connector)
remove_and_reset_channel c = do
  sockfd ← need c.channel
  check c.watched
  ok (sockfd, record c { watched = false })

abbrev pub reset_channel : Connector → Connector
reset_channel c = record c { channel = none }

-- `handleWrite` in the state `kConnecting`, from the test of the socket's error on.
unfoldable pub settle : Bool → Bool → ℕ → Connector → Connector
settle error self_connect sockfd c =
    if error || self_connect
    then retry sockfd c
    else if c.connect
    then record c { state = connected; handed = sockfd ∷ c.handed }
    else close sockfd (record c { state = connected })

-- `handleWrite`, with whether the socket has an error and whether it is connected to itself.
unfoldable pub handle_write : Bool → Bool → Connector → Result Connector
handle_write error self_connect c = elim c.state [
  | connecting ↦ do
    (sockfd, c') ← remove_and_reset_channel c
    ok (reset_channel (settle error self_connect sockfd c'))
  | disconnected ↦ ok c
  | connected ↦ err assertion
]

unfoldable pub handle_error : Connector → Result Connector
handle_error c = do (sockfd, c') ← remove_and_reset_channel c; ok (retry sockfd c')
