-- ===== src/TcpClient/Connection.antt =====
-- The connection of a client: when there is one, and what happens when it closes.
use cppnetool.Prelude.{
  ℕ, suc, ◌≡◌, refl, sym, ◌∙◌, inl, inr, Bool, true, false, ◌&&◌, ◌||◌, Option, some, none, is_some,
  Bool-cases, Option-cases, subst, [],
}
use cppnetool.Prelude.Result.{ok}
use cppnetool.Connector.{Outcome}
use cppnetool.Channel.{is_writing}
use cppnetool.TcpConnection.{
  TcpConnection, connect_established, connect_destroyed, shutdown, shutdown_all, is_connected,
  is_disconnecting, would_block, shutdown_in_loop, disconnecting,
}
use cppnetool.TcpConnection
use cppnetool.TcpConnection.Stream.{established, established_lem}
use cppnetool.TcpConnection.Lifecycle.{connect_destroyed_lem}
use cppnetool.TcpClient.{
  TcpClient, disconnect, shutdown_if, new_connection, restart_if, remove_connection, get_conn,
}
use cppnetool.TcpClient.Restart.{AfterClose, restart_if-AfterClose}

-- `connectDestroyed` can be called.
abbrev pub is_live : TcpConnection → Bool
is_live t = is_connected t.state || is_disconnecting t.state

-- `state_` tells whether there is a connection, and the connection is established.
pub record IsValid (c : TcpClient) : Type 0 where
  pub state_eq : c.state ≡ is_some c.connection
  pub live : (t : TcpConnection) → c.connection ≡ some t → is_live t ≡ true

pub some_live :
    (u t : TcpConnection)
    → ◌≡◌ {A = Option TcpConnection} (some u) (some t)
    → is_live u ≡ true
    → is_live t ≡ true
some_live u t h k = let same : u ≡ t = cc (h) in subst (λ w. is_live w ≡ true) same k

-- A socket that the connector hands over becomes the connection, which is established.
pub new_connection-IsValid :
    (sockfd : ℕ) (write_complete : Bool) (c : TcpClient)
    → (c' : TcpClient) × (new_connection sockfd write_complete c ≡ ok c')
      × IsValid c'
      × (c'.connection ≡ some (established sockfd write_complete))
unfolding new_connection TcpConnection.new
new_connection-IsValid sockfd write_complete c = (
  record c {
    state = true;
    next_conn_id = suc c.next_conn_id;
    connection = some (established sockfd write_complete);
  },
  rw ((established_lem sockfd write_complete).0) refl,
  record { state_eq = refl; live = λ t h. some_live (established sockfd write_complete) t h refl },
  refl,
)

shutdown_live : (t : TcpConnection) → is_live t ≡ true → is_live (shutdown t) ≡ true
unfolding shutdown shutdown_in_loop
shutdown_live t h = elim (Bool-cases (is_connected t.state)) [
  | inl on ↦ elim (Bool-cases (is_writing t.channel)) [
    | inl w ↦ rw (on, w) refl
    | inr w ↦ rw (on, w) refl
  ]
  | inr off ↦ rw (shutdown, off) h
]

is_some-shutdown_if : (o : Option TcpConnection) → is_some (shutdown_if o) ≡ is_some o
is_some-shutdown_if none = refl
is_some-shutdown_if (some t) = refl

shutdown_if_live :
    (o : Option TcpConnection)
    → ((t : TcpConnection) → o ≡ some t → is_live t ≡ true)
    → (t : TcpConnection) → shutdown_if o ≡ some t
    → is_live t ≡ true
shutdown_if_live none all t h = absurd (cc (h))
shutdown_if_live (some u) all t h = some_live (shutdown u) t h (shutdown_live u (all u refl))

-- `disconnect` keeps the connection, half-closed or about to be.
pub disconnect-IsValid : (c : TcpClient) → IsValid c → IsValid (disconnect c)
unfolding disconnect
disconnect-IsValid c v = record {
  state_eq = v.state_eq ∙ sym (is_some-shutdown_if c.connection);
  live = shutdown_if_live c.connection v.live;
}

restart_if-IsValid :
    (b : Bool) (sockfd : ℕ) (outcome : Outcome) (c : TcpClient)
    → IsValid c
    → IsValid (restart_if b sockfd outcome c)
unfolding restart_if
restart_if-IsValid true sockfd outcome c v = record { state_eq = v.state_eq; live = v.live }
restart_if-IsValid false sockfd outcome c v = v

restart_if-connection :
    (b : Bool) (sockfd : ℕ) (outcome : Outcome) (c : TcpClient)
    → (restart_if b sockfd outcome c).connection ≡ c.connection
unfolding restart_if
restart_if-connection true sockfd outcome c = refl
restart_if-connection false sockfd outcome c = refl

-- When the connection of a valid client closes the client gives it up, and stays valid. Where retrying is
-- enabled and the user has not asked to disconnect or stop, the connector makes a new attempt, and where
-- this fails for a passing reason the next one comes after the initial delay of 500 ms; otherwise the
-- connector is left as it is.
pub remove_connection_lem :
    (sockfd : ℕ) (outcome : Outcome) (c : TcpClient) (t : TcpConnection)
    → IsValid c
    → c.connection ≡ some t
    → (c' : TcpClient) × (remove_connection sockfd outcome c ≡ ok c')
      × IsValid c'
      × (c'.connection ≡ none)
      × AfterClose sockfd outcome c c'
unfolding remove_connection
remove_connection_lem sockfd outcome c t v h =
    let (t', destroyed, idle, mute, shut, once) =
      connect_destroyed_lem [] would_block t (v.live t h) in
    (
      restart_if (c.retry && c.connect) sockfd outcome
          (record c { state = false; connection = none }),
      rw (h, destroyed) refl,
      restart_if-IsValid (c.retry && c.connect) sockfd outcome _
          (record { state_eq = refl; live = λ u k. absurd (cc (k)) }),
      restart_if-connection (c.retry && c.connect) sockfd outcome _,
      restart_if-AfterClose sockfd outcome c,
    )

-- `getConn` gives the connection, and no null pointer is followed.
pub get_conn_lem : (c : TcpClient) → IsValid c → get_conn c ≡ ok c.connection
unfolding get_conn
get_conn_lem c v = elim (Option-cases c.connection) [
  | inl absent ↦ rw (v.state_eq, absent) refl
  | inr (t, there) ↦ rw (v.state_eq, there) refl
]
