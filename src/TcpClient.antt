-- ===== src/TcpClient.antt =====
-- cppnetool/net/TcpClient.h and TcpClient.cc: a connector, and the connection that it made. An
-- operation that can start an attempt is given the socket that it makes and what `connect` gives.
pub mod Restart
pub mod Connection
mod Examples
use cppnetool.Prelude.{ℕ, suc, Bool, true, false, ◌&&◌, Option, some, none, if◌then◌else◌, is_some}
use cppnetool.Prelude.Result.{Result, ok, need, ◌>>=◌}
use cppnetool.Connector.{Connector, Outcome}
use cppnetool.Connector
use cppnetool.TcpConnection.{
  TcpConnection, connect_established, connect_destroyed, shutdown, shutdown_all,
}
use cppnetool.TcpConnection

pub record TcpClient : Type 0 where
  pub connector : Connector
  pub retry : Bool
  pub connect : Bool
  pub state : Bool
  pub next_conn_id : ℕ
  pub connection : Option TcpConnection

unfoldable pub new : TcpClient
new = record {
  connector = Connector.new;
  retry = false;
  connect = false;
  state = false;
  next_conn_id = 1;
  connection = none;
}

unfoldable pub enable_retry : TcpClient → TcpClient
enable_retry c = record c { retry = true }

-- `connect`
unfoldable pub start : ℕ → Outcome → TcpClient → TcpClient
start sockfd outcome c = record c {
  connect = true;
  connector = Connector.start sockfd outcome c.connector;
}

abbrev pub shutdown_if : Option TcpConnection → Option TcpConnection
shutdown_if none = none
shutdown_if (some t) = some (shutdown t)

unfoldable pub disconnect : TcpClient → TcpClient
disconnect c = record c { connect = false; connection = shutdown_if c.connection }

unfoldable pub stop : TcpClient → TcpClient
stop c = record c { connect = false; connector = Connector.stop c.connector }

-- `newConnection`, which the connector calls with the socket, and whether a write-complete callback
-- is set.
unfoldable pub new_connection : ℕ → Bool → TcpClient → Result TcpClient
new_connection sockfd write_complete c = do
  t ← connect_established (TcpConnection.new sockfd write_complete)
  ok (record c { state = true; next_conn_id = suc c.next_conn_id; connection = some t })

unfoldable pub restart_if : Bool → ℕ → Outcome → TcpClient → TcpClient
restart_if true sockfd outcome c = record c {
  connector = Connector.restart sockfd outcome c.connector;
}
restart_if false sockfd outcome c = c

-- `removeConnection`, the close callback of the connection.
unfoldable pub remove_connection : ℕ → Outcome → TcpClient → Result TcpClient
remove_connection sockfd outcome c = do
  t ← need c.connection
  t' ← connect_destroyed t
  let c' = record c { state = false; connection = none }
  ok (restart_if (c'.retry && c'.connect) sockfd outcome c')

unfoldable pub get_conn : TcpClient → Result (Option TcpConnection)
get_conn c = if c.state then (do t ← need c.connection; ok (some t)) else ok none

-- The destructor.
unfoldable pub destroy : TcpClient → Result TcpClient
destroy c =
    if c.state
    then (do
      t ← need c.connection
      t' ← connect_destroyed (shutdown_all t)
      ok (record c { connection = some t' }))
    else ok c
