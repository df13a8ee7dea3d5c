-- ===== src/TcpServer/Removal.antt =====
-- The two ways to remove a connection from the map.
use cppnetool.Prelude.{ℕ, ◌≡◌, refl, sym, ◌∙◌, inl, inr, true, ◌||◌, [], some, none, Bool-cases}
use cppnetool.Prelude.Result.{ok}
use cppnetool.Channel.{is_writing, is_reading}
use cppnetool.TcpConnection.{
  TcpConnection, shutdown_all, shutdown_all_in_loop, is_connected, is_disconnecting, disconnecting,
  would_block,
}
use cppnetool.TcpConnection.Lifecycle.{connect_destroyed_lem}
use cppnetool.TcpServer.{
  Entry, TcpServer, erase, remove_connection_in_loop, remove_found, remove_conn,
}
use cppnetool.TcpServer.Keys.{IsValid, SameExcept, erase-IsValid, update-ne, update_self}

-- The connection `name`, at `p`, is in the map and was established.
pub record Open (s : TcpServer) (name p : ℕ) : Type 0 where
  pub in_map : s.connections name ≡ some (some p)
  pub entry : Entry
  pub object_eq : s.objects p ≡ some entry
  pub live : (is_connected entry.tcp.state || is_disconnecting entry.tcp.state) ≡ true

-- The connection `name`, at `p`, is gone, and no other one was touched.
pub record Removed (name p : ℕ) (s s' : TcpServer) : Type 0 where
  pub valid : IsValid s'
  pub not_in_map : s'.connections name ≡ none
  pub deleted : s'.objects p ≡ none
  pub others : SameExcept name s s'

erase-Removed :
    (name p : ℕ) (s : TcpServer) → IsValid s → Open s name p → Removed name p s (erase name p s)
unfolding erase
erase-Removed name p s v o = record {
  valid = erase-IsValid name p s v o.in_map;
  not_in_map = update_self s.connections name none;
  deleted = update_self s.objects p none;
  others = λ other h. update-ne s.connections name other none h;
}

Open-name : (name p : ℕ) (s : TcpServer) → IsValid s → (o : Open s name p) → o.entry.name ≡ name
Open-name name p s v o =
    let r = v.registered name p o.in_map in
    let same : some r.entry ≡ some o.entry = sym r.object_eq ∙ o.object_eq in cc (same, r.name_eq)

-- When an established connection closes, `removeConnectionInLoop` succeeds and takes it, and no other
-- one, out of the map.
pub remove_connection_in_loop_lem :
    (name p : ℕ) (s : TcpServer)
    → IsValid s
    → Open s name p
    → (s' : TcpServer) × (remove_connection_in_loop p s ≡ ok s') × Removed name p s s'
unfolding remove_connection_in_loop
remove_connection_in_loop_lem name p s v o =
    let (tcp, destroyed, idle, mute, shut, once) =
      connect_destroyed_lem [] would_block o.entry.tcp o.live in
    (
      erase name p s,
      rw (o.object_eq, destroyed, Open-name name p s v o, o.in_map) refl,
      erase-Removed name p s v o,
    )

shutdown_all_in_loop-state : (c : TcpConnection) → (shutdown_all_in_loop c).state ≡ c.state
unfolding shutdown_all_in_loop
shutdown_all_in_loop-state c = elim (Bool-cases (is_writing c.channel)) [
  | inl w ↦ elim (Bool-cases (is_reading c.channel)) [
    | inl r ↦ rw (w, r) refl
    | inr r ↦ rw (w, r) refl
  ]
  | inr w ↦ elim (Bool-cases (is_reading c.channel)) [
    | inl r ↦ rw (w, r) refl
    | inr r ↦ rw (w, r) refl
  ]
]

pub shutdown_all_live :
    (c : TcpConnection)
    → (is_connected c.state || is_disconnecting c.state) ≡ true
    → (is_connected (shutdown_all c).state || is_disconnecting (shutdown_all c).state) ≡ true
unfolding shutdown_all
shutdown_all_live c h = elim (Bool-cases (is_connected c.state)) [
  | inl on ↦ rw (on, shutdown_all_in_loop-state (record c { state = disconnecting })) refl
  | inr off ↦ rw (shutdown_all, off) h
]

-- `removeConn` of an established connection shuts it down, destroys it and takes it, and no other
-- one, out of the map.
pub remove_conn_lem :
    (name p : ℕ) (s : TcpServer)
    → IsValid s
    → Open s name p
    → (s' : TcpServer) × (remove_conn name s ≡ ok s') × Removed name p s s'
unfolding remove_conn remove_found
remove_conn_lem name p s v o =
    let (tcp, destroyed, idle, mute, shut, once) =
      connect_destroyed_lem [] would_block (shutdown_all o.entry.tcp)
        (shutdown_all_live o.entry.tcp o.live) in
    (erase name p s, rw (o.in_map, o.object_eq, destroyed) refl, erase-Removed name p s v o)
