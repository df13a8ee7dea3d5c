-- ===== src/Session.antt =====
-- proxy/Session.h and Session.cc: a connection of the server and a client that the proxy made for
-- it, each of which gets what comes in at the other. The constructor sets the pair pointers of both,
-- so that they are not null in a callback. A handler is given the clock at its calls of `setNow`, and
-- what `write` gives for the number of bytes that it is handed.
pub mod Carries
pub mod Relay
pub mod Others
pub mod Forward
pub mod Writable
pub mod Run
pub mod Timeout
pub mod Close
mod Examples
use cppnetool.Prelude.{
  ℕ, ◌*◌, Bool, true, false, ◌||◌, List, Option, some, none, ltb, if◌then◌else◌, update, length,
  is_some,
}
use cppnetool.Prelude.Result.{Result, ok, need, ◌>>=◌, ◌>>◌}
use cppnetool.Timestamp.{Timestamp, Seconds, add_time, micro_seconds_per_second}
use cppnetool.Buffer.{Buffer, retrieve_as_string}
use cppnetool.Connector.{Outcome}
use cppnetool.TcpConnection.{TcpConnection, Written, send, is_connected}
use cppnetool.TcpServer.{TcpServer, Entry, remove_conn}
use cppnetool.TcpServer
use cppnetool.TcpClient.{TcpClient, destroy}
use cppnetool.TcpClient

abbrev pub seconds : ℕ → Seconds
seconds n = record { positive = ltb 0 n; micros = n * micro_seconds_per_second }

-- `TIMEOUT`
abbrev pub timeout : Seconds
timeout = seconds 6

-- What `write` gives for a number of bytes.
abbrev pub Kernel : Type 0
Kernel = ℕ → Written

-- `name` is the one of `serverPair_`, under which the server has its connection.
pub record Session : Type 0 where
  pub name : ℕ
  pub client : TcpClient
  pub client_time : Timestamp
  pub server_time : Timestamp
  pub connecting : Bool

-- The connection `e` at `p` after an operation.
abbrev pub put_tcp : ℕ → Entry → TcpConnection → TcpServer → TcpServer
put_tcp p e tcp server = record server {
  objects = update server.objects p (some (record e { tcp = tcp }));
}

-- What a new session is given: the clock, and the socket that the client makes.
pub record Opening : Type 0 where
  pub now : Timestamp
  pub sockfd : ℕ
  pub outcome : Outcome

-- The constructor; it follows the pointer to the connection of the server where that is null, too.
unfoldable pub new : ℕ → TcpClient → Opening → TcpServer → Result (Session × TcpServer)
new name client o server = do
  p ← need ((TcpServer.get_conn name server).0)
  ok (
    record {
      name = name;
      client = TcpClient.start o.sockfd o.outcome client;
      client_time = add_time o.now (seconds 60);
      server_time = add_time (add_time o.now (seconds 60)) timeout;
      connecting = true;
    },
    (TcpServer.get_conn name server).1,
  )

-- The destructor.
unfoldable pub close : Session → TcpServer → Result TcpServer
close s server = do server' ← remove_conn s.name server; client' ← destroy s.client; ok server'

-- The bytes of `retrieveAsString` on the input buffer of a connection, and the connection after it.
abbrev pub input_string : TcpConnection → List ℕ
input_string c = (retrieve_as_string c.input).0

abbrev pub drain : TcpConnection → TcpConnection
drain c = record c { input = (retrieve_as_string c.input).1 }

-- What `getConn` of the server is used for when the client got connected: the bytes that have been
-- waiting are sent.
unfoldable pub send_waiting :
    Timestamp
    → Kernel
    → TcpConnection
    → Option ℕ
    → Session
    → TcpServer
    → Result (Session × TcpServer)
send_waiting now kernel conn none s server = ok (record s { client_time = now }, server)
send_waiting now kernel conn (some p) s server = do
  e ← need (server.objects p)
  conn' ← send (input_string e.tcp) (kernel (length (input_string e.tcp))) conn
  ok (
    record s {
      client = record s.client { connection = some conn' };
      client_time = add_time now timeout;
    },
    put_tcp p e (drain e.tcp) server,
  )

-- `onTcpClientConnection_`, called for the connection of the client when it opens and when it closes.
unfoldable pub on_tcp_client_connection :
    Timestamp → Timestamp → Kernel → Session → TcpServer → Result (Session × TcpServer)
on_tcp_client_connection now later kernel s server = do
  conn ← need s.client.connection
  let s' = record s { connecting = false; server_time = add_time now timeout }
  let (found, server') = TcpServer.get_conn s.name server
  if is_connected conn.state
      then send_waiting later kernel conn found s' server'
      else ok (s, server)

unfoldable pub send_to_server :
    Timestamp
    → Kernel
    → TcpConnection
    → Option ℕ
    → Session
    → TcpServer
    → Result (Session × TcpServer)
send_to_server now kernel conn none s server = ok (record s { server_time = now }, server)
send_to_server now kernel conn (some p) s server = do
  e ← need (server.objects p)
  tcp' ← send (input_string conn) (kernel (length (input_string conn))) e.tcp
  ok (
    record s {
      client = record s.client { connection = some (drain conn) };
      client_time = add_time now timeout;
    },
    put_tcp p e tcp' server,
  )

-- `onTcpClientMessage_`, for the connection of the client.
unfoldable pub on_tcp_client_message :
    Timestamp → Timestamp → Kernel → Session → TcpServer → Result (Session × TcpServer)
on_tcp_client_message now later kernel s server = do
  conn ← need s.client.connection
  let (found, server') = TcpServer.get_conn s.name server
  send_to_server later kernel conn found (record s { server_time = add_time now timeout }) server'

-- The branch of `onTcpServerMessage_` without a connection of the client.
unfoldable pub reconnect : ℕ → Outcome → Session → Session
reconnect sockfd outcome s = if s.connecting then s else record s {
  client = TcpClient.start sockfd outcome s.client;
  connecting = true;
  server_time = add_time s.client_time timeout;
}

unfoldable pub send_to_client :
    Timestamp
    → Kernel
    → ℕ
    → Outcome
    → ℕ
    → Entry
    → Option TcpConnection
    → Session
    → TcpServer
    → Result (Session × TcpServer)
send_to_client now kernel sockfd outcome p e none s server = ok (reconnect sockfd outcome s, server)
send_to_client now kernel sockfd outcome p e (some conn) s server = do
  conn' ← send (input_string e.tcp) (kernel (length (input_string e.tcp))) conn
  ok (
    record s {
      client = record s.client { connection = some conn' };
      server_time = add_time now timeout;
    },
    put_tcp p e (drain e.tcp) server,
  )

-- `onTcpServerMessage_`, for the connection of the server at `p`.
unfoldable pub on_tcp_server_message :
    Timestamp
    → Timestamp
    → Kernel
    → ℕ
    → Outcome
    → ℕ
    → Session
    → TcpServer
    → Result (Session × TcpServer)
on_tcp_server_message now later kernel sockfd outcome p s server = do
  e ← need (server.objects p)
  found ← TcpClient.get_conn s.client
  send_to_client later kernel sockfd outcome p e found
      (record s { client_time = add_time now timeout }) server

-- The test of `Proxy::processSession_`.
unfoldable pub is_over : Timestamp → Session → Bool
is_over now s = ltb s.client_time now || ltb s.server_time now
