-- ===== src/Session/Forward.antt =====
-- The handlers of a session pass on what comes in, whether the client is connected yet or not.
use cppnetool.Prelude.{
  ℕ, ◌+◌, ◌≤◌, ◌≡◌, refl, Bool, true, false, ◌==◌, List, [], ◌∷◌, ◌++◌, some, length, arith,
}
use cppnetool.Prelude.Result.{ok}
use cppnetool.Buffer.{extra_size, max_size}
use cppnetool.TcpConnection.{TcpConnection}
use cppnetool.TcpConnection.Stream.{established}
use cppnetool.TcpServer.{TcpServer, Entry}
use cppnetool.TcpClient.{TcpClient}
use cppnetool.TcpClient
use cppnetool.TcpClient.Connection.{new_connection-IsValid}
use cppnetool.Timestamp.{add_time}
use cppnetool.Session.{
  Session, timeout, drain, put_tcp, on_tcp_client_connection, on_tcp_client_message,
  on_tcp_server_message, send_to_client, send_to_server, send_waiting, reconnect,
}
use cppnetool.Session.Carries.{
  Carries, room_for, send-Carries, handle_read-Carries, drain-Carries, input_string-Carries,
  established-Carries,
}
use cppnetool.Session.Relay.{
  Turn, server_reads, client_connects, client_reads, step, times, next_times, Apart, waits,
  forwards, Relays, set_connection,
}
use cppnetool.Session.Others.{get_conn-eq, put_tcp-Apart, Apart-trans, put_tcp-Relays}

-- Until the client is connected the bytes stay in the input buffer of the server's connection.
pub server_reads-waits :
    (p c : ℕ) (bytes : List ℕ) (t : Turn) (a : List ℕ) (e : Entry) (s : Session)
    (server : TcpServer)
    → server.connections s.name ≡ some (some p)
    → server.objects p ≡ some e
    → Carries [] a a e.tcp
    → s.client.state ≡ false
    → s.connecting ≡ true
    → length (c ∷ bytes) ≤ extra_size
    → room_for a + extra_size ≤ max_size
    → (s' : Session) × (server' : TcpServer) × (step p (server_reads c bytes t) s server
        ≡ ok (s', server'))
      × Relays p false (a ++ c ∷ bytes) [] s' server'
      × (times s' ≡ next_times false (server_reads c bytes t) (times s))
      × Apart p server server'
unfolding step on_tcp_server_message send_to_client reconnect TcpClient.get_conn
server_reads-waits p c bytes t a e s server h o r off trying small m =
    let (tcp, f, r') = handle_read-Carries c bytes [] a a e.tcp r small m in
    let self : (p == p) ≡ true = ground arith in
    let s' = record s { client_time = add_time t.now timeout } in
    (
      s',
      put_tcp p e tcp server,
      rw (o, f, self, off, trying) refl,
      put_tcp-Relays p false (a ++ c ∷ bytes) [] (a ++ c ∷ bytes) e tcp s' server h r' (waits off)
          trying,
      refl,
      put_tcp-Apart p e tcp server,
    )

pub server_reads-forwards :
    (p c : ℕ) (bytes : List ℕ) (t : Turn) (a b : List ℕ) (e : Entry) (conn : TcpConnection)
    (s : Session) (server : TcpServer)
    → server.connections s.name ≡ some (some p)
    → server.objects p ≡ some e
    → Carries b a [] e.tcp
    → s.client.state ≡ true
    → s.client.connection ≡ some conn
    → s.connecting ≡ false
    → Carries a b [] conn
    → length (c ∷ bytes) ≤ extra_size
    → room_for a + extra_size ≤ max_size
    → (s' : Session) × (server' : TcpServer) × (step p (server_reads c bytes t) s server
        ≡ ok (s', server'))
      × Relays p true (a ++ c ∷ bytes) b s' server'
      × (times s' ≡ next_times true (server_reads c bytes t) (times s))
      × Apart p server server'
unfolding step on_tcp_server_message send_to_client TcpClient.get_conn
server_reads-forwards p c bytes t a b e conn s server h o r on there idle rc small m =
    let (tcp, f, r') = handle_read-Carries c bytes b a [] e.tcp r small m in
    let (conn', g, rc') =
      send-Carries (c ∷ bytes) t.written a b [] conn rc (omega (arith, small, m)) in
    let s' = record (set_connection conn' s) {
      client_time = add_time t.now timeout;
      server_time = add_time t.later timeout;
    } in
    let e1 = record e { tcp = tcp } in
    let self : (p == p) ≡ true = ground arith in
    (
      s',
      put_tcp p e1 (drain tcp) (put_tcp p e tcp server),
      rw (o, f, self, on, there, input_string-Carries b (a ++ c ∷ bytes) (c ∷ bytes) tcp r', g)
          refl,
      put_tcp-Relays p true (a ++ c ∷ bytes) b [] e1 (drain tcp) s' (put_tcp p e tcp server) h
          (drain-Carries b (a ++ c ∷ bytes) (c ∷ bytes) tcp r') (forwards conn' on refl rc') idle,
      refl,
      Apart-trans p server _ _ (put_tcp-Apart p e tcp server)
          (put_tcp-Apart p e1 (drain tcp) (put_tcp p e tcp server)),
    )

pub client_connects-forwards :
    (p sockfd : ℕ) (write_complete : Bool) (t : Turn) (a : List ℕ) (e : Entry) (s : Session)
    (server : TcpServer)
    → server.connections s.name ≡ some (some p)
    → server.objects p ≡ some e
    → Carries [] a a e.tcp
    → room_for a + extra_size ≤ max_size
    → (s' : Session) × (server' : TcpServer) × (step p
          (client_connects sockfd write_complete t)
          s
          server
        ≡ ok (s', server'))
      × Relays p true a [] s' server'
      × (times s' ≡ next_times false (client_connects sockfd write_complete t) (times s))
      × Apart p server server'
unfolding step on_tcp_client_connection send_waiting
client_connects-forwards p sockfd write_complete t a e s server h o r m =
    let (client, f, valid, there) = new_connection-IsValid sockfd write_complete s.client in
    let conn = established sockfd write_complete in
    let (conn', g, rc') =
      send-Carries a t.written [] [] [] conn (established-Carries sockfd write_complete)
        (omega (arith, m)) in
    let s' : Session = record s {
      client = record client { connection = some conn' };
      connecting = false;
      server_time = add_time t.now timeout;
      client_time = add_time t.later timeout;
    } in
    (
      s',
      put_tcp p e (drain e.tcp) server,
      rw (f, there, get_conn-eq p s.name server h, o, input_string-Carries [] a a e.tcp r, g) refl,
      put_tcp-Relays p true a [] [] e (drain e.tcp) s' server h (drain-Carries [] a a e.tcp r)
          (forwards conn' (rw (valid.state_eq, there) refl) refl rc') refl,
      refl,
      put_tcp-Apart p e (drain e.tcp) server,
    )

pub client_reads-forwards :
    (p c : ℕ) (bytes : List ℕ) (t : Turn) (a b : List ℕ) (e : Entry) (conn : TcpConnection)
    (s : Session) (server : TcpServer)
    → server.connections s.name ≡ some (some p)
    → server.objects p ≡ some e
    → Carries b a [] e.tcp
    → s.client.state ≡ true
    → s.client.connection ≡ some conn
    → s.connecting ≡ false
    → Carries a b [] conn
    → length (c ∷ bytes) ≤ extra_size
    → room_for b + extra_size ≤ max_size
    → (s' : Session) × (server' : TcpServer) × (step p (client_reads c bytes t) s server
        ≡ ok (s', server'))
      × Relays p true a (b ++ c ∷ bytes) s' server'
      × (times s' ≡ next_times true (client_reads c bytes t) (times s))
      × Apart p server server'
unfolding step on_tcp_client_message send_to_server
client_reads-forwards p c bytes t a b e conn s server h o r on there idle rc small m =
    let (conn', f, rc') = handle_read-Carries c bytes a b [] conn rc small m in
    let (tcp, g, r') =
      send-Carries (c ∷ bytes) t.written b a [] e.tcp r (omega (arith, small, m)) in
    let s' = record (set_connection (drain conn') s) {
      server_time = add_time t.now timeout;
      client_time = add_time t.later timeout;
    } in
    (
      s',
      put_tcp p e tcp server,
      rw
          (
            there,
            f,
            get_conn-eq p s.name server h,
            o,
            input_string-Carries a (b ++ c ∷ bytes) (c ∷ bytes) conn' rc',
            g,
          )
          refl,
      put_tcp-Relays p true a (b ++ c ∷ bytes) [] e tcp s' server h r'
          (forwards (drain conn') on refl (drain-Carries a (b ++ c ∷ bytes) (c ∷ bytes) conn' rc'))
          idle,
      refl,
      put_tcp-Apart p e tcp server,
    )
