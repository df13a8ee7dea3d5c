-- ===== src/Proxy/Accept.antt =====
-- A connection that the proxy accepts gets a session at once.
use cppnetool.Prelude.{
  ℕ, suc, ◌<◌, ◌≡◌, ◌≢◌, refl, subst, true, false, [], some, none, ◌==◌, arith, update,
}
use cppnetool.Prelude.Result.{Result, ok, ◌>>=◌}
use cppnetool.Timestamp.{add_time}
use cppnetool.EventLoopThreadPool.{EventLoopThreadPool, get_next_loop}
use cppnetool.TcpConnection
use cppnetool.TcpConnection.Stream.{established, established_lem}
use cppnetool.TcpServer.{TcpServer, Entry, max_int, new_connection, post, register}
use cppnetool.TcpServer.Keys.{IsValid, SameExcept, establish-eq, update_self}
use cppnetool.TcpServer.Registry.{SameObjects, next_id-eq, new_connection_lem}
use cppnetool.TcpClient
use cppnetool.Session.{Session, Opening, timeout, seconds}
use cppnetool.Session
use cppnetool.Session.Carries.{established-Carries}
use cppnetool.Session.Others.{get_conn-eq}
use cppnetool.Session.Relay.{Relays, times, waits}
use cppnetool.Proxy.Sessions.{find-put, find-put_other}
use cppnetool.Proxy.{
  Proxy, on_tcp_server_connection, serve, get_tcp_client, add_session, drop_session, find, put,
}

-- `TcpServer::newConnection` with the connection callback that `init` sets.
unfoldable pub accept : ℕ → ℕ → Opening → Proxy → Result Proxy
accept sockfd p o x = do
  server ← new_connection sockfd p false x.server
  on_tcp_server_connection p o (record x { server = server })

-- The server behind a connection that was established in its own loop.
served : ℕ → ℕ → EventLoopThreadPool → TcpServer → TcpServer
served sockfd p pool s =
    let e : Entry = record {
      name = s.next_conn_id;
      io_loop = pool.base_loop;
      tcp = TcpConnection.new sockfd false;
    } in
    let s1 = register p e (record s { next_conn_id = suc s.next_conn_id; thread_pool = pool }) in
    record s1 { objects = update s1.objects p (some (record e { tcp = established sockfd false })) }

served-eq :
    (sockfd p : ℕ) (pool : EventLoopThreadPool) (s : TcpServer)
    → s.next_conn_id < max_int
    → get_next_loop s.thread_pool ≡ ok (pool.base_loop, pool)
    → new_connection sockfd p false s ≡ ok (served sockfd p pool s)
unfolding new_connection post register served
served-eq sockfd p pool s small g =
    rw (next_id-eq s.next_conn_id small, g, self, new_connection)
      (establish-eq p e (established sockfd false) s1 (update_self s.objects p (some e))
        ((established_lem sockfd false).0))
  where
    self : (pool.base_loop == pool.base_loop) ≡ true
    self = ground arith

    e : Entry
    e = record {
      name = s.next_conn_id;
      io_loop = pool.base_loop;
      tcp = TcpConnection.new sockfd false;
    }

    s1 : TcpServer
    s1 = register p e (record s { next_conn_id = suc s.next_conn_id; thread_pool = pool })

served-object :
    (sockfd p : ℕ) (pool : EventLoopThreadPool) (s : TcpServer)
    → (e : Entry) × ((served sockfd p pool s).objects p ≡ some e)
      × (e.name ≡ s.next_conn_id)
      × (e.tcp ≡ established sockfd false)
unfolding served register
served-object sockfd p pool s = (
  record { name = s.next_conn_id; io_loop = pool.base_loop; tcp = established sockfd false },
  ground arith,
  refl,
  refl,
)

-- A connection that a proxy accepts in the loop of its server, with a number in the range of an `int` and
-- under a name that no session has, gets a session, which relays; one of its times is a minute from
-- now and the other 6 seconds later. The server stays valid, no other connection and no other session is
-- touched, and the queue is as it was.
pub accept_lem :
    (sockfd p : ℕ) (o : Opening) (x : Proxy) (pool : EventLoopThreadPool)
    → IsValid x.server
    → x.server.objects p ≡ none
    → x.server.next_conn_id < max_int
    → find x.server.next_conn_id x.sessions ≡ none
    → get_next_loop x.server.thread_pool ≡ ok (pool.base_loop, pool)
    → (s : Session) × (x' : Proxy) × (accept sockfd p o x ≡ ok x')
      × (find x.server.next_conn_id x'.sessions ≡ some s)
      × Relays p false [] [] s x'.server
      × (times s ≡ (add_time o.now (seconds 60), add_time (add_time o.now (seconds 60)) timeout))
      × IsValid x'.server
      × SameExcept x.server.next_conn_id x.server x'.server
      × SameObjects p x.server x'.server
      × ((other : ℕ)
          → other ≢ x.server.next_conn_id
          → find other x'.sessions ≡ find other x.sessions)
      × (x'.pairs ≡ x.pairs)
unfolding accept on_tcp_server_connection serve get_tcp_client add_session drop_session Session.new
accept_lem sockfd p o x pool v free small fresh g =
    let (s', f, valid, in_map, except, others, opened, next) =
      new_connection_lem sockfd p false x.server pool.base_loop pool v free small g in
    let after = served-eq sockfd p pool x.server small g in
    let same : s' ≡ served sockfd p pool x.server = cc (f, after) in
    let server = served sockfd p pool x.server in
    let (e, object_eq, name_eq, tcp_eq) = served-object sockfd p pool x.server in
    let there : server.connections x.server.next_conn_id ≡ some (some p) =
      subst (λ t. t.connections x.server.next_conn_id ≡ some (some p)) same in_map in
    let s : Session = record {
      name = x.server.next_conn_id;
      client = TcpClient.start o.sockfd o.outcome TcpClient.new;
      client_time = add_time o.now (seconds 60);
      server_time = add_time (add_time o.now (seconds 60)) timeout;
      connecting = true;
    } in
    (
      s,
      record x { server = server; sessions = put x.server.next_conn_id s x.sessions },
      rw
          (
            after,
            object_eq,
            tcp_eq,
            name_eq,
            get_conn-eq p x.server.next_conn_id server there,
            fresh,
          )
          refl,
      find-put x.server.next_conn_id s x.sessions,
      record {
        in_map = there;
        entry = e;
        object_eq = object_eq;
        waiting = [];
        server_side = rw tcp_eq (established-Carries sockfd false);
        client_side = waits (unfold TcpClient.start TcpClient.new in refl);
        connecting_eq = refl;
      },
      refl,
      subst IsValid same valid,
      subst (SameExcept x.server.next_conn_id x.server) same except,
      subst (SameObjects p x.server) same others,
      λ other h. find-put_other x.server.next_conn_id other s x.sessions h,
      refl,
    )
