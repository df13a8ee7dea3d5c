-- ===== src/TcpServer/Examples.antt =====
-- The server's theorems at concrete inputs.
use cppnetool.Prelude.{
  ℕ, ◌≡◌, refl, true, Option, some, none, ◌==◌, if◌then◌else◌, Bool-cases, inl, inr, arith,
}
use cppnetool.Prelude.Result.{ok}
use cppnetool.EventLoopThreadPool.{EventLoopThreadPool, get_next_loop}
use cppnetool.EventLoopThreadPool
use cppnetool.TcpConnection.Stream.{established}
use cppnetool.TcpConnection
use cppnetool.TcpServer.{TcpServer, Entry, new, new_connection, remove_connection_in_loop}
use cppnetool.TcpServer.Keys.{IsValid, Registered, SameExcept}
use cppnetool.TcpServer.Registry.{SameObjects, Opened, new_connection_lem}
use cppnetool.TcpServer.Removal.{Open, Removed, remove_connection_in_loop_lem}

abbrev server : TcpServer
server = new 9

server-IsValid : IsValid server
unfolding new
server-IsValid = record { registered = λ name p h. absurd (cc (h)) }

new_connection_lem_example :
    (s : TcpServer) × (new_connection 7 100 true server ≡ ok s)
    × IsValid s
    × (s.connections 1 ≡ some (some 100))
    × SameExcept 1 server s
    × SameObjects 100 server s
    × Opened 7 100 true 9 9 server s
    × (s.next_conn_id ≡ 2)
unfolding new EventLoopThreadPool.new get_next_loop
new_connection_lem_example =
    new_connection_lem 7 100 true server 9 (EventLoopThreadPool.new 9) server-IsValid refl
      (omega arith) refl

-- One connection, called 1, at the address 100.
abbrev only : Entry
only = record { name = 1; io_loop = 9; tcp = established 7 true }

abbrev busy : TcpServer
unfolding new
busy = record (new 9) {
  next_conn_id = 2;
  connections = λ name. if name == 1 then some (some 100) else none;
  objects = λ p. if p == 100 then some only else none;
}

busy-IsValid : IsValid busy
unfolding new
busy-IsValid = record { registered = keys }
  where
    keys : (name p : ℕ) → busy.connections name ≡ some (some p) → Registered busy name p
    keys name p h = elim (Bool-cases (name == 1)) [
      | inl first ↦
          let here : some (some 100) ≡ some (some p) = ground (arith, first, h) in
          let at : 100 ≡ p = cc (here) in
          record {
            given = ground (arith, first);
            entry = only;
            object_eq = ground (arith, at);
            name_eq = ground (arith, first);
          }
      | inr other ↦
          let nothing : Option (Option ℕ) = none in
          let gone : nothing ≡ some (some p) = ground (arith, other, h) in absurd (cc (gone))
    ]

busy-Open : Open busy 1 100
unfolding new TcpConnection.new
busy-Open = record { in_map = refl; entry = only; object_eq = refl; live = refl }

remove_connection_in_loop_lem_example :
    (s : TcpServer) × (remove_connection_in_loop 100 busy ≡ ok s) × Removed 1 100 busy s
remove_connection_in_loop_lem_example =
    remove_connection_in_loop_lem 1 100 busy busy-IsValid busy-Open
