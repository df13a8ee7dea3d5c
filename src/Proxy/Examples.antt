-- ===== src/Proxy/Examples.antt =====
-- The theorems on the proxy at concrete inputs, and what it does with a queue.
use cppnetool.Prelude.{ℕ, ◌≡◌, ◌≢◌, ◌↔◌, refl, true, false, [], ◌∷◌, some, arith}
use cppnetool.Prelude.Result.{ok}
use cppnetool.Connector.{in_progress}
use cppnetool.EventLoopThreadPool.{EventLoopThreadPool, get_next_loop}
use cppnetool.EventLoopThreadPool
use cppnetool.TcpServer.{TcpServer}
use cppnetool.TcpServer
use cppnetool.TcpServer.Keys.{IsValid, SameExcept}
use cppnetool.TcpServer.Registry.{SameObjects}
use cppnetool.TcpClient
use cppnetool.Session.{Session, Opening}
use cppnetool.Session.Relay.{Relays, times}
use cppnetool.Proxy.{Proxy, new, find, process_session}
use cppnetool.Proxy.Accept.{accept, accept_lem}
use cppnetool.Proxy.Sessions.{process_session_lem, AllCurrent}

abbrev opening : Opening
opening = record { now = 50; sockfd = 11; outcome = in_progress }

fresh-IsValid : IsValid (new 9).server
unfolding new TcpServer.new
fresh-IsValid = record { registered = λ name p h. absurd (cc (h)) }

accept_lem_example :
    (s : Session) × (x : Proxy) × (accept 7 100 opening (new 9) ≡ ok x)
    × (find 1 x.sessions ≡ some s)
    × Relays 100 false [] [] s x.server
    × (times s ≡ (60000050, 66000050))
    × IsValid x.server
    × SameExcept 1 (new 9).server x.server
    × SameObjects 100 (new 9).server x.server
    × ((other : ℕ) → other ≢ 1 → find other x.sessions ≡ find other [])
    × (x.pairs ≡ [])
unfolding new TcpServer.new EventLoopThreadPool.new get_next_loop find
accept_lem_example =
    accept_lem 7 100 opening (new 9) (EventLoopThreadPool.new 9) fresh-IsValid refl (omega arith)
      refl refl

abbrev old : Session
old = record {
  name = 1;
  client = TcpClient.new;
  client_time = 40;
  server_time = 60;
  connecting = true;
}

abbrev holding : Proxy
unfolding new
holding = record (new 9) { server = TcpServer.new 9; sessions = (1, old) ∷ []; pairs = [] }

process_session_lem_example :
    ((process_session 50 holding ≡ ok holding) ↔ AllCurrent 50 holding.sessions)
    × (((y : Proxy) × (process_session 50 holding ≡ ok y)) ↔ AllCurrent 50 holding.sessions)
process_session_lem_example = process_session_lem 50 holding
