-- ===== src/Session/Close.antt =====
-- The end of a session, and two sessions of one server.
use cppnetool.Prelude.{ℕ, ◌<◌, ◌≡◌, refl, Bool, true, ◌||◌, List, [], some, none, arith, update}
use cppnetool.Prelude.Result.{ok}
use cppnetool.Timestamp.{Timestamp}
use cppnetool.TcpConnection.{
  TcpConnection, would_block, shutdown_all, is_connected, is_disconnecting,
}
use cppnetool.TcpConnection.Lifecycle.{connect_destroyed_lem}
use cppnetool.TcpServer.{TcpServer, get_conn, get_found}
use cppnetool.TcpServer.Keys.{IsValid}
use cppnetool.TcpServer.Removal.{Open, Removed, remove_conn_lem, shutdown_all_live}
use cppnetool.TcpClient.{TcpClient, destroy}
use cppnetool.Session.{Session, Kernel, close, on_tcp_client_message, send_to_server, is_over}
use cppnetool.Session.Carries.{Carries}
use cppnetool.Session.Relay.{Side, waits, forwards, Relays}

connected_live :
    (sent came waiting : List ℕ) (c : TcpConnection)
    → Carries sent came waiting c
    → (is_connected c.state || is_disconnecting c.state) ≡ true
connected_live sent came waiting c r = rw (r.holds.state_eq) refl

Relays-Open :
    (p : ℕ) (on : Bool) (a b : List ℕ) (s : Session) (server : TcpServer)
    → Relays p on a b s server
    → Open server s.name p
Relays-Open p on a b s server r = record {
  in_map = r.in_map;
  entry = r.entry;
  object_eq = r.object_eq;
  live = connected_live b a r.waiting r.entry.tcp r.server_side;
}

destroy-Side :
    (a b waiting : List ℕ) (on : Bool) (c : TcpClient)
    → Side a c b on waiting
    → (c' : TcpClient) × (destroy c ≡ ok c')
unfolding destroy
destroy-Side a b waiting on c (waits off) = (c, rw off refl)
destroy-Side a b waiting on c (forwards t up there r) =
    let (t', destroyed, idle, mute, shut, once) =
      connect_destroyed_lem [] would_block (shutdown_all t)
        (shutdown_all_live t (connected_live a b [] t r)) in
    (record c { connection = some t' }, rw (up, there, destroyed) refl)

-- The destructor of a session that relays succeeds, whether its client is connected or not; it takes
-- the connection of the session, and no other one, out of the map of the server.
pub close_lem :
    (p : ℕ) (on : Bool) (a b : List ℕ) (s : Session) (server : TcpServer)
    → IsValid server
    → Relays p on a b s server
    → (server' : TcpServer) × (close s server ≡ ok server') × Removed s.name p server server'
unfolding close
close_lem p on a b s server v r =
    let (server', removed, gone) =
      remove_conn_lem s.name p server v (Relays-Open p on a b s server r) in
    let (client', destroyed) = destroy-Side a b r.waiting on s.client r.client_side in
    (server', rw (removed, destroyed) refl, gone)

-- When the server has no connection any more under the name of a session whose client is connected,
-- what comes in at the client stays in its buffer, nothing is sent, and the session is over at any later
-- time.
pub on_tcp_client_message-closed :
    (now later t : Timestamp) (kernel : Kernel) (s : Session) (conn : TcpConnection)
    (server : TcpServer)
    → server.connections s.name ≡ none
    → s.client.connection ≡ some conn
    → later < t
    → (s' : Session) × (server' : TcpServer) × (on_tcp_client_message now later kernel s server
        ≡ ok (s', server'))
      × (s'.client ≡ s.client)
      × (server'.objects ≡ server.objects)
      × (is_over t s' ≡ true)
unfolding on_tcp_client_message send_to_server get_conn get_found is_over
on_tcp_client_message-closed now later t kernel s conn server gone there h = (
  record s { server_time = later },
  record server { connections = update server.connections s.name (some none) },
  rw (there, gone) refl,
  refl,
  refl,
  ground (arith, h),
)
