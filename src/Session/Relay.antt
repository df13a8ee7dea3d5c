-- ===== src/Session/Relay.antt =====
-- The two connections of a session from when the session is made until one of them closes: what
-- comes in at one and what goes out at the other.
use cppnetool.Prelude.{ℕ, not, ◌≡◌, ◌≢◌, Bool, true, false, ◌&&◌, List, [], ◌∷◌, ◌++◌, some}
use cppnetool.Prelude.Result.{Result, ok, need, ◌>>=◌}
use cppnetool.Timestamp.{Timestamp, add_time}
use cppnetool.Buffer.{readable_bytes, received}
use cppnetool.Connector.{Outcome}
use cppnetool.TcpConnection.{TcpConnection, Written, handle_read, handle_write}
use cppnetool.TcpConnection.Send.{answer}
use cppnetool.TcpServer.{TcpServer, Entry}
use cppnetool.TcpClient.{TcpClient}
use cppnetool.TcpClient
use cppnetool.Session.Carries.{Carries}
use cppnetool.Session.{
  Session, timeout, put_tcp, on_tcp_client_connection, on_tcp_client_message, on_tcp_server_message,
}

-- What the handler finds: the clock at its first and its last call of `setNow`, what `write` gives,
-- and the socket that a new attempt of the client makes.
pub record Turn : Type 0 where
  pub now : Timestamp
  pub later : Timestamp
  pub written : Written
  pub sockfd : ℕ
  pub outcome : Outcome

-- At least one byte is read.
pub data Event : Type 0 where
  server_reads : ℕ → List ℕ → Turn → Event
  server_writable : Written → Event
  client_connects : ℕ → Bool → Turn → Event
  client_reads : ℕ → List ℕ → Turn → Event
  client_writable : Written → Event

abbrev pub set_connection : TcpConnection → Session → Session
set_connection t s = record s { client = record s.client { connection = some t } }

-- `p` is the connection of the server.
unfoldable pub step : ℕ → Event → Session → TcpServer → Result (Session × TcpServer)
step p (server_reads b bytes t) s server = do
  e ← need (server.objects p)
  tcp ← handle_read (received (b ∷ bytes)) e.tcp
  on_tcp_server_message t.now t.later (λ n. answer n t.written) t.sockfd t.outcome p s
      (put_tcp p e tcp server)
step p (server_writable w) s server = do
  e ← need (server.objects p)
  tcp ← handle_write (answer (readable_bytes e.tcp.output) w) e.tcp
  ok (s, put_tcp p e tcp server)
step p (client_connects sockfd write_complete t) s server = do
  client ← TcpClient.new_connection sockfd write_complete s.client
  on_tcp_client_connection t.now t.later (λ n. answer n t.written) (record s { client = client })
      server
step p (client_reads b bytes t) s server = do
  conn ← need s.client.connection
  conn' ← handle_read (received (b ∷ bytes)) conn
  on_tcp_client_message t.now t.later (λ n. answer n t.written) (set_connection conn' s) server
step p (client_writable w) s server = do
  conn ← need s.client.connection
  conn' ← handle_write (answer (readable_bytes conn.output) w) conn
  ok (set_connection conn' s, server)

unfoldable pub run : ℕ → List Event → Session → TcpServer → Result (Session × TcpServer)
run p [] s server = ok (s, server)
run p (e ∷ es) s server = do (s', server') ← step p e s server; run p es s' server'

-- The client connects once, and reads and writes from then on.
abbrev pub is_possible : Bool → Event → Bool
is_possible on (server_reads b bytes t) = true
is_possible on (server_writable w) = true
is_possible true (client_connects sockfd write_complete t) = false
is_possible false (client_connects sockfd write_complete t) = true
is_possible on (client_reads b bytes t) = on
is_possible on (client_writable w) = on

abbrev pub is_on : Bool → Event → Bool
is_on on (server_reads b bytes t) = on
is_on on (server_writable w) = on
is_on on (client_connects sockfd write_complete t) = true
is_on on (client_reads b bytes t) = on
is_on on (client_writable w) = on

abbrev pub are_possible : Bool → List Event → Bool
are_possible on [] = true
are_possible on (e ∷ es) = is_possible on e && are_possible (is_on on e) es

abbrev pub are_on : Bool → List Event → Bool
are_on on [] = on
are_on on (e ∷ es) = are_on (is_on on e) es

-- What came in at the server and at the client.
abbrev pub from_server : Event → List ℕ
from_server (server_reads b bytes t) = b ∷ bytes
from_server (server_writable w) = []
from_server (client_connects sockfd write_complete t) = []
from_server (client_reads b bytes t) = []
from_server (client_writable w) = []

abbrev pub from_client : Event → List ℕ
from_client (server_reads b bytes t) = []
from_client (server_writable w) = []
from_client (client_connects sockfd write_complete t) = []
from_client (client_reads b bytes t) = b ∷ bytes
from_client (client_writable w) = []

-- Until when the session is kept, as far as the connection of the server and the client go.
abbrev pub Times : Type 0
Times = Timestamp × Timestamp

abbrev pub times : Session → Times
times s = (s.client_time, s.server_time)

-- Where both sides are used, both times are set; before the client is connected only the one of the
-- side that was read.
abbrev pub next_times : Bool → Event → Times → Times
next_times true (server_reads b bytes t) ts = (add_time t.now timeout, add_time t.later timeout)
next_times false (server_reads b bytes t) (x, y) = (add_time t.now timeout, y)
next_times on (server_writable w) ts = ts
next_times on (client_connects sockfd write_complete t) ts =
    (add_time t.later timeout, add_time t.now timeout)
next_times on (client_reads b bytes t) ts = (add_time t.later timeout, add_time t.now timeout)
next_times on (client_writable w) ts = ts

abbrev pub last_times : Bool → List Event → Times → Times
last_times on [] ts = ts
last_times on (e ∷ es) ts = last_times (is_on on e) es (next_times on e ts)

abbrev pub all_from_server : List Event → List ℕ
all_from_server [] = []
all_from_server (e ∷ es) = from_server e ++ all_from_server es

abbrev pub all_from_client : List Event → List ℕ
all_from_client [] = []
all_from_client (e ∷ es) = from_client e ++ all_from_client es

-- Where the bytes `a` are that came in at the server: until the client is connected they wait, and
-- then all of them were sent.
pub data Side (a : List ℕ) (c : TcpClient) : List ℕ → Bool → List ℕ → Type 0 where
  waits : c.state ≡ false → Side a c [] false a
  forwards :
      {b : List ℕ} (t : TcpConnection)
      → c.state ≡ true
      → c.connection ≡ some t
      → Carries a b [] t
      → Side a c b true []

-- The server has the connection of the session, which was given all the bytes `b` that came in at the
-- client.
pub record Relays (p : ℕ) (on : Bool) (a b : List ℕ) (s : Session) (server : TcpServer)
    : Type 0 where
  pub in_map : server.connections s.name ≡ some (some p)
  pub entry : Entry
  pub object_eq : server.objects p ≡ some entry
  pub waiting : List ℕ
  pub server_side : Carries b a waiting entry.tcp
  pub client_side : Side a s.client b on waiting
  pub connecting_eq : s.connecting ≡ not on

-- Only the connection at `p` was changed.
pub record Apart (p : ℕ) (server server' : TcpServer) : Type 0 where
  pub connections_eq : server'.connections ≡ server.connections
  pub objects_eq : (q : ℕ) → q ≢ p → server'.objects q ≡ server.objects q
