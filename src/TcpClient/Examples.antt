-- ===== src/TcpClient/Examples.antt =====
-- The client's theorems at concrete inputs.
use cppnetool.Prelude.{◌≡◌, refl, true, some, none}
use cppnetool.Prelude.Result.{ok}
use cppnetool.Connector.{in_progress}
use cppnetool.TcpConnection
use cppnetool.TcpConnection.Stream.{established}
use cppnetool.TcpClient.{TcpClient, new, remove_connection}
use cppnetool.TcpClient.Restart.{AfterClose}
use cppnetool.TcpClient.Connection.{IsValid, some_live, remove_connection_lem}

-- A client with a connection, which retries.
abbrev client : TcpClient
unfolding new
client = record new {
  retry = true;
  connect = true;
  state = true;
  connection = some (established 7 true);
}

client-IsValid : IsValid client
unfolding new TcpConnection.new
client-IsValid = record { state_eq = refl; live = λ t h. some_live (established 7 true) t h refl }

remove_connection_lem_example :
    (c : TcpClient) × (remove_connection 8 in_progress client ≡ ok c)
    × IsValid c
    × (c.connection ≡ none)
    × AfterClose 8 in_progress client c
unfolding new
remove_connection_lem_example =
    remove_connection_lem 8 in_progress client (established 7 true) client-IsValid refl
