-- ===== src/Session/Timeout.antt =====
-- How long `Proxy::processSession_` lets a session live.
use cppnetool.Prelude.{
  ℕ, and_left, and_right, ◌+◌, ◌≤◌, ◌<◌, ◌≡◌, sym, Bool, true, false, ◌&&◌, List, [], ◌∷◌, ◌++◌,
  leb, arith, subst,
}
use cppnetool.Prelude.Result.{ok}
use cppnetool.Timestamp.{Timestamp, add_time}
use cppnetool.Buffer.{extra_size, max_size}
use cppnetool.TcpServer.{TcpServer}
use cppnetool.Session.{Session, timeout, is_over}
use cppnetool.Session.Carries.{room_for}
use cppnetool.Session.Relay.{
  Turn, Event, server_reads, server_writable, client_connects, client_reads, client_writable, run,
  is_on, are_possible, all_from_server, all_from_client, Times, times, next_times, last_times,
  Relays,
}
use cppnetool.Session.Run.{run-Relays, are_small}

-- The clock stays between `first` and `last`.
abbrev pub turn_within : Timestamp → Timestamp → Turn → Bool
turn_within first last t =
    (leb first t.now && leb t.now last) && (leb first t.later && leb t.later last)

abbrev pub is_within : Timestamp → Timestamp → Event → Bool
is_within first last (server_reads b bytes t) = turn_within first last t
is_within first last (server_writable w) = true
is_within first last (client_connects sockfd write_complete t) = turn_within first last t
is_within first last (client_reads b bytes t) = turn_within first last t
is_within first last (client_writable w) = true

abbrev pub are_within : Timestamp → Timestamp → List Event → Bool
are_within first last [] = true
are_within first last (e ∷ es) = is_within first last e && are_within first last es

-- Both times lie six seconds behind a time between `first` and `last`.
pub record Due (first last : Timestamp) (ts : Times) : Type 0 where
  pub client_ge : add_time first timeout ≤ ts.0
  pub client_le : ts.0 ≤ add_time last timeout
  pub server_ge : add_time first timeout ≤ ts.1
  pub server_le : ts.1 ≤ add_time last timeout

turn-Due :
    (first last : Timestamp) (t : Turn)
    → turn_within first last t ≡ true
    → Due first last (add_time t.now timeout, add_time t.later timeout)
      × Due first last (add_time t.later timeout, add_time t.now timeout)
turn-Due first last t h = (
  record {
    client_ge = ground (arith, h);
    client_le = ground (arith, h);
    server_ge = ground (arith, h);
    server_le = ground (arith, h);
  },
  record {
    client_ge = ground (arith, h);
    client_le = ground (arith, h);
    server_ge = ground (arith, h);
    server_le = ground (arith, h);
  },
)

next_times-Due :
    (first last : Timestamp) (on : Bool) (e : Event) (ts : Times)
    → is_within first last e ≡ true
    → Due first last ts
    → Due first last (next_times on e ts)
next_times-Due first last true (server_reads b bytes t) ts h d = (turn-Due first last t h).0
next_times-Due first last false (server_reads b bytes t) (x, y) h d =
    let u = (turn-Due first last t h).0 in
    record {
      client_ge = u.client_ge;
      client_le = u.client_le;
      server_ge = d.server_ge;
      server_le = d.server_le;
    }
next_times-Due first last on (server_writable w) ts h d = d
next_times-Due first last on (client_connects sockfd wc t) ts h d = (turn-Due first last t h).1
next_times-Due first last on (client_reads b bytes t) ts h d = (turn-Due first last t h).1
next_times-Due first last on (client_writable w) ts h d = d

last_times-Due :
    (first last : Timestamp) (on : Bool) (es : List Event) (ts : Times)
    → are_within first last es ≡ true
    → Due first last ts
    → Due first last (last_times on es ts)
last_times-Due first last on [] ts h d = d
last_times-Due first last on (e ∷ es) ts h d =
    last_times-Due first last (is_on on e) es (next_times on e ts)
      (and_right (is_within first last e) (are_within first last es) h)
      (next_times-Due first last on e ts
        (and_left (is_within first last e) (are_within first last es) h) d)

-- A session that relays, and whose times were set no earlier than `first` and no later than `last`, is
-- kept during a run that reads the clock between these, and up to six seconds behind `first`; it
-- is over more than six seconds behind `last`.
pub run-is_over :
    (first last early late : Timestamp) (es : List Event) (p : ℕ) (on : Bool) (a b : List ℕ)
    (s : Session) (server : TcpServer)
    → Relays p on a b s server
    → are_possible on es ≡ true
    → are_small es ≡ true
    → room_for (a ++ all_from_server es) + extra_size ≤ max_size
    → room_for (b ++ all_from_client es) + extra_size ≤ max_size
    → are_within first last es ≡ true
    → Due first last (times s)
    → early ≤ add_time first timeout
    → add_time last timeout < late
    → (s' : Session) × (server' : TcpServer) × (run p es s server ≡ ok (s', server'))
      × (is_over early s' ≡ false)
      × (is_over late s' ≡ true)
unfolding is_over
run-is_over first last early late es p on a b s server r k n ma mb h d x y =
    let (s', server', e, r', t, apart) = run-Relays es p on a b s server r k n ma mb in
    let due : Due first last (times s') =
      subst (Due first last) (sym t) (last_times-Due first last on es (times s) h d) in
    (
      s',
      server',
      e,
      ground (arith, due.client_ge, due.server_ge, x),
      ground (arith, due.client_le, due.server_le, y),
    )
