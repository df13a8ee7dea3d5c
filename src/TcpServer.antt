-- ===== src/TcpServer.antt =====
-- cppnetool/net/TcpServer.h and TcpServer.cc, and the part of Acceptor.cc that hands connections on:
-- the map of the connections that are open. The name of a connection is that of the server and a
-- number, which stands for it here; the pointer to a new connection is an argument. A functor that
-- another loop is to run is kept in `posted` until it runs there.
pub mod Keys
pub mod Registry
pub mod Removal
mod Examples
use cppnetool.Prelude.{
  ℕ, suc, ltb, ◌-◌, ◌^◌, Bool, true, false, List, [], ◌∷◌, ◌++◌, Option, some, none, ◌==◌,
  if◌then◌else◌, update, is_some,
}
use cppnetool.Prelude.Result.{Result, ok, err, overflow, check, need, ◌>>=◌, ◌>>◌}
use cppnetool.EventLoopThreadPool.{EventLoopThreadPool, get_next_loop}
use cppnetool.EventLoopThreadPool
use cppnetool.TcpConnection.{TcpConnection, connect_established, connect_destroyed, shutdown_all}
use cppnetool.TcpConnection

-- A connection with its name and its loop.
pub record Entry : Type 0 where
  pub name : ℕ
  pub io_loop : ℕ
  pub tcp : TcpConnection

-- A key of `connections_` can hold a null pointer.
pub record TcpServer : Type 0 where
  pub started : Bool
  pub listenning : Bool
  pub next_conn_id : ℕ
  pub thread_pool : EventLoopThreadPool
  pub connections : ℕ → Option (Option ℕ)
  pub objects : ℕ → Option Entry
  pub posted : List ℕ

unfoldable pub new : ℕ → TcpServer
new loop = record {
  started = false;
  listenning = false;
  next_conn_id = 1;
  thread_pool = EventLoopThreadPool.new loop;
  connections = λ name. none;
  objects = λ p. none;
  posted = [];
}

-- `start`, with the loops that the threads start; `Acceptor::listen` sets `listenning_`.
unfoldable pub start : (ℕ → ℕ) → TcpServer → Result TcpServer
start start_loop s = do
  pool ← if s.started then ok s.thread_pool else EventLoopThreadPool.start start_loop s.thread_pool
  ok (record s { started = true; thread_pool = pool; listenning = true })

-- `connectEstablished`, in the loop of the connection.
unfoldable pub establish : ℕ → TcpServer → Result TcpServer
establish p s = do
  e ← need (s.objects p)
  tcp ← connect_established e.tcp
  ok (record s { objects = update s.objects p (some (record e { tcp = tcp })) })

-- `runInLoop` of `connectEstablished`: at once in the loop of the server, queued in another one.
unfoldable pub post : ℕ → ℕ → TcpServer → Result TcpServer
post io_loop p s =
    if io_loop == s.thread_pool.base_loop
    then establish p s
    else ok (record s { posted = s.posted ++ p ∷ [] })

-- `++nextConnId_` of an `int`.
abbrev pub max_int : ℕ
max_int = 2 ^ 31 - 1

unfoldable pub next_id : ℕ → Result ℕ
next_id n = if ltb n max_int then ok (suc n) else err overflow

-- The new entry in the map and among the objects.
unfoldable pub register : ℕ → Entry → TcpServer → TcpServer
register p e s = record s {
  connections = update s.connections e.name (some (some p));
  objects = update s.objects p (some e);
}

-- `newConnection`, with the pointer that `new` gives and whether a write-complete callback is set.
unfoldable pub new_connection : ℕ → ℕ → Bool → TcpServer → Result TcpServer
new_connection sockfd p write_complete s = do
  next ← next_id s.next_conn_id
  (io_loop, pool) ← get_next_loop s.thread_pool
  let e : Entry = record {
    name = s.next_conn_id;
    io_loop = io_loop;
    tcp = TcpConnection.new sockfd write_complete;
  }
  post io_loop p (register p e (record s { next_conn_id = next; thread_pool = pool }))

-- The map was the last owner of the connection.
unfoldable pub erase : ℕ → ℕ → TcpServer → TcpServer
erase name p s = record s {
  connections = update s.connections name none;
  objects = update s.objects p none;
}

unfoldable pub remove_connection_in_loop : ℕ → TcpServer → Result TcpServer
remove_connection_in_loop p s = do
  e ← need (s.objects p)
  tcp ← connect_destroyed e.tcp
  check (is_some (s.connections e.name))
  ok (erase e.name p s)

-- `removeConn`, from what `connections_[name]` is; it puts in a null pointer where there is no such
-- key.
unfoldable pub remove_found : Option (Option ℕ) → ℕ → TcpServer → Result TcpServer
remove_found none name s = ok (record s { connections = update s.connections name (some none) })
remove_found (some none) name s = ok s
remove_found (some (some p)) name s = do
  e ← need (s.objects p)
  tcp ← connect_destroyed (shutdown_all e.tcp)
  ok (erase name p s)

unfoldable pub remove_conn : ℕ → TcpServer → Result TcpServer
remove_conn name s = remove_found (s.connections name) name s

-- `connections_[name]` of `getConn`, which puts in a null pointer where there is no such key.
unfoldable pub get_found : Option (Option ℕ) → ℕ → TcpServer → Option ℕ × TcpServer
get_found none name s = (none, record s { connections = update s.connections name (some none) })
get_found (some q) name s = (q, s)

unfoldable pub get_conn : ℕ → TcpServer → Option ℕ × TcpServer
unfolding get_found
get_conn name s = get_found (s.connections name) name s
