-- ===== src/Session/Others.antt =====
-- The connections of a session, and the others, after a change of one of them.
use cppnetool.Prelude.{ℕ, ◌≡◌, refl, ◌∙◌, Bool, not, List, some}
use cppnetool.TcpConnection.{TcpConnection}
use cppnetool.TcpServer.{TcpServer, Entry, get_conn, get_found}
use cppnetool.TcpServer.Keys.{update_self, update-ne}
use cppnetool.Session.{Session, put_tcp}
use cppnetool.Session.Carries.{Carries}
use cppnetool.Session.Relay.{Apart, Side, Relays}

pub get_conn-eq :
    (p : ℕ) (name : ℕ) (server : TcpServer)
    → server.connections name ≡ some (some p)
    → get_conn name server ≡ (some p, server)
unfolding get_conn get_found
get_conn-eq p name server h = rw h refl

pub put_tcp-Apart :
    (p : ℕ) (e : Entry) (tcp : TcpConnection) (server : TcpServer)
    → Apart p server (put_tcp p e tcp server)
put_tcp-Apart p e tcp server = record {
  connections_eq = refl;
  objects_eq = λ q h. update-ne server.objects p q (some (record e { tcp = tcp })) h;
}

pub Apart-refl : (p : ℕ) (server : TcpServer) → Apart p server server
Apart-refl p server = record { connections_eq = refl; objects_eq = λ q h. refl }

pub Apart-trans : (p : ℕ) (x y z : TcpServer) → Apart p x y → Apart p y z → Apart p x z
Apart-trans p x y z h k = record {
  connections_eq = k.connections_eq ∙ h.connections_eq;
  objects_eq = λ q d. k.objects_eq q d ∙ h.objects_eq q d;
}

-- The server after an operation on the connection at `p`, and the session after one on the client.
pub put_tcp-Relays :
    (p : ℕ) (on : Bool) (a b waiting : List ℕ) (e : Entry) (tcp : TcpConnection) (s : Session)
    (server : TcpServer)
    → server.connections s.name ≡ some (some p)
    → Carries b a waiting tcp
    → Side a s.client b on waiting
    → s.connecting ≡ not on
    → Relays p on a b s (put_tcp p e tcp server)
put_tcp-Relays p on a b waiting e tcp s server h r side c = record {
  in_map = h;
  entry = record e { tcp = tcp };
  object_eq = update_self server.objects p (some (record e { tcp = tcp }));
  waiting = waiting;
  server_side = r;
  client_side = side;
  connecting_eq = c;
}
