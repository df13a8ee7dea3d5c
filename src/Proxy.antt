-- ===== src/Proxy.antt =====
-- proxy/Proxy.h and Proxy.cc, and the client that proxy/ServerManager.cc makes: a server each of whose
-- connections gets a session. A session is kept under the name of the connection of the server, which
-- stands for "session " and this name; the order of the keys is not kept, and no result depends on it.
mod Examples
pub mod Accept
pub mod Sessions
use cppnetool.Prelude.{
  ℕ, Bool, true, false, List, [], ◌∷◌, ◌++◌, Option, some, none, ◌==◌, if◌then◌else◌, update,
}
use cppnetool.Prelude.Result.{Result, ok, need, ◌>>=◌}
use cppnetool.Timestamp.{Timestamp, Seconds}
use cppnetool.Channel.{disable_all, enable_reading, enable_writing}
use cppnetool.TcpConnection.{TcpConnection, is_connected, on_channel}
use cppnetool.TcpServer.{TcpServer, Entry}
use cppnetool.TcpServer
use cppnetool.TcpClient.{TcpClient}
use cppnetool.TcpClient
use cppnetool.Session.{Session, Opening, put_tcp, is_over, close, seconds}
use cppnetool.Session

-- `pairs` holds the names of the connections that wait for a client. `checks_sessions` tells whether
-- `processSession_` is the callback of the loop, `serves` whether `onTcpServerConnection_` is that of
-- the server, and `queue_timers` has the intervals of the timers that call `processQueue_`.
pub record Proxy : Type 0 where
  pub checks_sessions : Bool
  pub serves : Bool
  pub queue_timers : List Seconds
  pub server : TcpServer
  pub sessions : List (ℕ × Session)
  pub pairs : List ℕ

unfoldable pub new : ℕ → Proxy
new loop = record {
  checks_sessions = true;
  serves = false;
  queue_timers = [];
  server = TcpServer.new loop;
  sessions = [];
  pairs = [];
}

-- `init`, with the loops that the threads of the server start.
unfoldable pub init : (ℕ → ℕ) → Proxy → Result Proxy
init start_loop x = do
  server ← TcpServer.start start_loop x.server
  ok (record x { serves = true; server = server; queue_timers = x.queue_timers ++ seconds 5 ∷ [] })

-- `ServerManager::getTcpClient`; the pointer is tested for null where it is used.
unfoldable pub get_tcp_client : Option TcpClient
get_tcp_client = some TcpClient.new

unfoldable pub find : ℕ → List (ℕ × Session) → Option Session
find name [] = none
find name ((key, s) ∷ rest) = let later = find name rest in if key == name then some s else later

unfoldable pub put : ℕ → Session → List (ℕ × Session) → List (ℕ × Session)
put name s [] = (name, s) ∷ []
put name s ((key, old) ∷ rest) =
    let later = put name s rest in if key == name then (name, s) ∷ rest else (key, old) ∷ later

-- The map was the last owner of the session.
unfoldable pub drop_session : Option Session → TcpServer → Result TcpServer
drop_session none server = ok server
drop_session (some s) server = close s server

-- A new session under the name of its connection: `sessionMap_[name] = sessionPtr`.
unfoldable pub add_session : ℕ → TcpClient → Opening → Proxy → Result Proxy
add_session name client o x = do
  (s, server) ← Session.new name client o x.server
  server' ← drop_session (find name x.sessions) server
  ok (record x { server = server'; sessions = put name s x.sessions })

unfoldable pub serve : Option TcpClient → ℕ → Entry → Opening → Proxy → Result Proxy
serve (some client) p e o x = add_session e.name client o x
serve none p e o x = ok (record x {
  server = put_tcp p e (on_channel disable_all e.tcp) x.server;
  pairs = x.pairs ++ e.name ∷ [];
})

-- `onTcpServerConnection_`, for the connection at `p`.
unfoldable pub on_tcp_server_connection : ℕ → Opening → Proxy → Result Proxy
on_tcp_server_connection p o x = do
  e ← need (x.server.objects p)
  let served = serve get_tcp_client p e o x
  if is_connected e.tcp.state then served else ok x

unfoldable pub remove : ℕ → List (ℕ × Session) → List (ℕ × Session)
remove name [] = []
remove name ((key, s) ∷ rest) =
    let later = remove name rest in if key == name then later else (key, s) ∷ later

-- `sessionMap_.erase(name)`
unfoldable pub erase_session : ℕ → Proxy → Result Proxy
erase_session name x = do
  server ← drop_session (find name x.sessions) x.server
  ok (record x { server = server; sessions = remove name x.sessions })

-- `processSession_` from an iterator on, which leads to the first of the entries that are left. `it++`
-- reads the entry that the iterator points to, which has to be in the map still.
unfoldable pub process_from : Timestamp → List (ℕ × Session) → Proxy → Result Proxy
process_from now [] x = ok x
process_from now ((key, s) ∷ rest) x = do
  x' ← if is_over now s then erase_session key x else ok x
  entry ← need (find key x'.sessions)
  process_from now rest x'

unfoldable pub process_session : Timestamp → Proxy → Result Proxy
process_session now x = process_from now x.sessions x

-- One connection of the queue that is still there, at `p`.
unfoldable pub serve_waiting : ℕ → TcpClient → Opening → Proxy → Result Proxy
serve_waiting p client o x = do
  e ← need (x.server.objects p)
  let tcp = on_channel enable_writing (on_channel enable_reading e.tcp)
  add_session e.name client o (record x { server = put_tcp p e tcp x.server })

-- The loop of `processQueue_`, over the names in the queue; without a client it ends.
unfoldable pub process_pairs : List ℕ → (ℕ → Opening) → Proxy → Result Proxy
process_pairs [] o x = ok (record x { pairs = [] })
process_pairs (name ∷ rest) o x =
    let (found, server) : Option ℕ × TcpServer = TcpServer.get_conn name x.server in
    let x' = record x { server = server } in
    elim found [
      | none ↦ process_pairs rest o x'
      | some p ↦ elim get_tcp_client [
        | none ↦ ok (record x' { pairs = rest ++ name ∷ [] })
        | some client ↦ do x'' ← serve_waiting p client (o name) x'; process_pairs rest o x''
      ]
    ]

unfoldable pub process_queue : (ℕ → Opening) → Proxy → Result Proxy
process_queue o x = process_pairs x.pairs o x
