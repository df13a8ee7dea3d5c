-- ===== src/Session/Examples.antt =====
-- The theorems on sessions at concrete inputs: two connections of a server, 1 at the address 100 and 2 at
-- the address 200, and a session for each.
use cppnetool.Prelude.{
  ℕ, ◌≡◌, refl, inl, inr, true, false, List, [], ◌∷◌, Option, some, none, ◌==◌, if◌then◌else◌,
  arith, Bool-cases,
}
use cppnetool.Prelude.Result.{ok}
use cppnetool.Connector.{in_progress}
use cppnetool.TcpConnection.{wrote, would_block}
use cppnetool.TcpConnection.Stream.{established}
use cppnetool.TcpServer.{TcpServer, Entry}
use cppnetool.TcpServer
use cppnetool.TcpServer.Keys.{IsValid, Registered}
use cppnetool.TcpServer.Removal.{Removed}
use cppnetool.TcpClient
use cppnetool.Session.{Session, close, is_over}
use cppnetool.Session.Carries.{established-Carries}
use cppnetool.Session.Relay.{
  Turn, Event, server_reads, server_writable, client_connects, client_reads, client_writable, run,
  times, Apart, waits, Relays,
}
use cppnetool.Session.Run.{run-Relays}
use cppnetool.Session.Timeout.{run-is_over}
use cppnetool.Session.Close.{close_lem}

abbrev first_entry : Entry
first_entry = record { name = 1; io_loop = 9; tcp = established 7 false }

abbrev second_entry : Entry
second_entry = record { name = 2; io_loop = 9; tcp = established 8 false }

abbrev both : TcpServer
unfolding TcpServer.new
both = record (TcpServer.new 9) {
  next_conn_id = 3;
  connections =
      λ name. if name == 1 then some (some 100) else if name == 2 then some (some 200) else none;
  objects =
      λ p. if p == 100 then some first_entry else if p == 200 then some second_entry else none;
}

abbrev session_of : ℕ → Session
session_of name = record {
  name = name;
  client = TcpClient.new;
  client_time = 6000050;
  server_time = 6000060;
  connecting = true;
}

first-Relays : Relays 100 false [] [] (session_of 1) both
unfolding TcpClient.new both
first-Relays = record {
  in_map = refl;
  entry = first_entry;
  object_eq = refl;
  waiting = [];
  server_side = established-Carries 7 false;
  client_side = waits refl;
  connecting_eq = refl;
}

second-Relays : Relays 200 false [] [] (session_of 2) both
unfolding TcpClient.new both
second-Relays = record {
  in_map = refl;
  entry = second_entry;
  object_eq = refl;
  waiting = [];
  server_side = established-Carries 8 false;
  client_side = waits refl;
  connecting_eq = refl;
}

abbrev turn : Turn
turn = record { now = 50; later = 60; written = wrote 1; sockfd = 12; outcome = in_progress }

-- Two bytes arrive before the client is connected, and one comes back.
abbrev events : List Event
events =
    server_reads 65 (66 ∷ []) turn
    ∷ client_connects 11 false turn
    ∷ client_reads 67 [] turn
    ∷ client_writable (wrote 5)
    ∷ server_writable would_block
    ∷ []

run-Relays_example :
    (s' : Session) × (server' : TcpServer) × (run 100 events (session_of 1) both ≡ ok (s', server'))
    × Relays 100 true (65 ∷ 66 ∷ []) (67 ∷ []) s' server'
    × (times s' ≡ (6000060, 6000050))
    × Apart 100 both server'
run-Relays_example =
    run-Relays events 100 false [] [] (session_of 1) both first-Relays refl refl (omega arith)
      (omega arith)

run-is_over_example :
    (s' : Session) × (server' : TcpServer) × (run 100 events (session_of 1) both ≡ ok (s', server'))
    × (is_over 6000050 s' ≡ false)
    × (is_over 6000061 s' ≡ true)
run-is_over_example =
    run-is_over 50 60 6000050 6000061 events 100 false [] [] (session_of 1) both first-Relays refl
      refl (omega arith) (omega arith) refl
      (record {
        client_ge = omega arith;
        client_le = omega arith;
        server_ge = omega arith;
        server_le = omega arith;
      })
      (omega arith) (omega arith)

both-IsValid : IsValid both
unfolding TcpServer.new
both-IsValid = record { registered = keys }
  where
    keys : (name p : ℕ) → both.connections name ≡ some (some p) → Registered both name p
    keys name p h = elim (Bool-cases (name == 1)) [
      | inl one ↦
          let here : some (some 100) ≡ some (some p) = ground (arith, one, h) in
          let at : 100 ≡ p = cc (here) in
          record {
            given = ground (arith, one);
            entry = first_entry;
            object_eq = ground (arith, at);
            name_eq = ground (arith, one);
          }
      | inr other ↦ elim (Bool-cases (name == 2)) [
        | inl two ↦
            let here : some (some 200) ≡ some (some p) = ground (arith, other, two, h) in
            let at : 200 ≡ p = cc (here) in
            record {
              given = ground (arith, two);
              entry = second_entry;
              object_eq = ground (arith, at);
              name_eq = ground (arith, two);
            }
        | inr more ↦
            let nothing : Option (Option ℕ) = none in
            let gone : nothing ≡ some (some p) = ground (arith, other, more, h) in
            absurd (cc (gone))
      ]
    ]

close_lem_example :
    (server' : TcpServer) × (close (session_of 1) both ≡ ok server') × Removed 1 100 both server'
close_lem_example = close_lem 100 false [] [] (session_of 1) both both-IsValid first-Relays

abbrev orphan : Session
orphan = record (session_of 3) {
  client = record TcpClient.new { state = true; connection = some (established 11 false) };
}
