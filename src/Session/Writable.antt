-- ===== src/Session/Writable.antt =====
-- A connection of a session that can be written to again.
use cppnetool.Prelude.{ℕ, ◌≡◌, refl, Bool, true, false, List, [], some}
use cppnetool.Prelude.Result.{ok}
use cppnetool.TcpConnection.{TcpConnection, Written}
use cppnetool.TcpServer.{TcpServer, Entry}
use cppnetool.Session.{Session, put_tcp}
use cppnetool.Session.Carries.{Carries, handle_write-Carries}
use cppnetool.Session.Relay.{
  server_writable, client_writable, step, times, next_times, Apart, forwards, Relays,
  set_connection,
}
use cppnetool.Session.Others.{put_tcp-Apart, Apart-refl, put_tcp-Relays}

-- A turn of the kernel on one of the connections.
pub server_writes-Relays :
    (p : ℕ) (w : Written) (on : Bool) (a b : List ℕ) (s : Session) (server : TcpServer)
    → Relays p on a b s server
    → (s' : Session) × (server' : TcpServer) × (step p (server_writable w) s server
        ≡ ok (s', server'))
      × Relays p on a b s' server'
      × (times s' ≡ next_times on (server_writable w) (times s))
      × Apart p server server'
unfolding step
server_writes-Relays p w on a b s server r =
    let (tcp, f, r') = handle_write-Carries w b a r.waiting r.entry.tcp r.server_side in
    (
      s,
      put_tcp p r.entry tcp server,
      rw (r.object_eq, f) refl,
      put_tcp-Relays p on a b r.waiting r.entry tcp s server r.in_map r' r.client_side
          r.connecting_eq,
      refl,
      put_tcp-Apart p r.entry tcp server,
    )

pub client_writes-Relays :
    (p : ℕ) (w : Written) (a b : List ℕ) (e : Entry) (conn : TcpConnection) (s : Session)
    (server : TcpServer)
    → server.connections s.name ≡ some (some p)
    → server.objects p ≡ some e
    → Carries b a [] e.tcp
    → s.client.state ≡ true
    → s.client.connection ≡ some conn
    → s.connecting ≡ false
    → Carries a b [] conn
    → (s' : Session) × (server' : TcpServer) × (step p (client_writable w) s server
        ≡ ok (s', server'))
      × Relays p true a b s' server'
      × (times s' ≡ next_times true (client_writable w) (times s))
      × Apart p server server'
unfolding step
client_writes-Relays p w a b e conn s server h o r on there idle rc =
    let (conn', f, rc') = handle_write-Carries w a b [] conn rc in
    (
      set_connection conn' s,
      server,
      rw (there, f) refl,
      record {
        in_map = h;
        entry = e;
        object_eq = o;
        waiting = [];
        server_side = r;
        client_side = forwards conn' on refl rc';
        connecting_eq = idle;
      },
      refl,
      Apart-refl p server,
    )
