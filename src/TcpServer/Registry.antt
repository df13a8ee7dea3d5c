-- ===== src/TcpServer/Registry.antt =====
-- `newConnection`: names are given once, and no other connection is touched.
use cppnetool.Prelude.{
  ◌⊎◌, ℕ, suc, ◌<◌, ◌≡◌, ◌≢◌, refl, ◌∙◌, inl, inr, Bool, [], ◌∷◌, ◌++◌, some, none, ◌==◌, update,
  Bool-cases, arith,
}
use cppnetool.Prelude.Result.{ok}
use cppnetool.EventLoopThreadPool.{EventLoopThreadPool, get_next_loop}
use cppnetool.TcpConnection.{
  TcpConnection, State, connect_established, connect_destroyed, shutdown_all, is_connected,
  is_disconnecting, is_connecting,
}
use cppnetool.TcpConnection
use cppnetool.TcpConnection.Stream.{established, established_lem}
use cppnetool.TcpServer.{
  Entry, TcpServer, max_int, next_id, establish, post, register, new_connection,
}
use cppnetool.TcpServer.Keys.{
  IsValid, SameExcept, update-ne, update_self, register-IsValid, replace-IsValid, establish-eq,
}

-- No object but the one at `p` was changed.
abbrev pub SameObjects : ℕ → TcpServer → TcpServer → Type 0
SameObjects p s s' = (q : ℕ) → q ≢ p → s'.objects q ≡ s.objects q

-- What becomes of the new connection: it is established at once in the loop of the server, and in
-- another one as soon as this loop runs what is posted to it.
pub record Opened (sockfd p : ℕ) (write_complete : Bool) (io_loop base : ℕ) (s s' : TcpServer)
    : Type 0 where
  pub entry : Entry
  pub object_eq : s'.objects p ≡ some entry
  pub name_eq : entry.name ≡ s.next_conn_id
  pub loop_eq : entry.io_loop ≡ io_loop
  pub when :
      ((io_loop ≡ base) × (entry.tcp ≡ established sockfd write_complete) × (s'.posted ≡ s.posted))
      ⊎ ((io_loop ≢ base)
          × (entry.tcp ≡ TcpConnection.new sockfd write_complete)
          × (s'.posted ≡ s.posted ++ p ∷ []))

pub next_id-eq : (n : ℕ) → n < max_int → next_id n ≡ ok (suc n)
unfolding next_id
next_id-eq n h = ground (arith, h)

-- A new connection of a valid server, as long as the number is in the range of an `int`, takes the next
-- name, which is in the map from then on; every other connection and its place in the map stay as they
-- are. The new one is established at once where its loop is that of the server, and otherwise this is
-- posted to its loop.
pub new_connection_lem :
    (sockfd p : ℕ) (write_complete : Bool) (s : TcpServer) (io_loop : ℕ)
    (pool : EventLoopThreadPool)
    → IsValid s
    → s.objects p ≡ none
    → s.next_conn_id < max_int
    → get_next_loop s.thread_pool ≡ ok (io_loop, pool)
    → (s' : TcpServer) × (new_connection sockfd p write_complete s ≡ ok s')
      × IsValid s'
      × (s'.connections s.next_conn_id ≡ some (some p))
      × SameExcept s.next_conn_id s s'
      × SameObjects p s s'
      × Opened sockfd p write_complete io_loop pool.base_loop s s'
      × (s'.next_conn_id ≡ suc s.next_conn_id)
unfolding new_connection post establish register
new_connection_lem sockfd p write_complete s io_loop pool v free small g =
    elim (Bool-cases (io_loop == pool.base_loop)) [
      | inl mine ↦ (
        record s1 { objects = update s1.objects p (some e') },
        rw (next_id-eq s.next_conn_id small, g, mine, new_connection)
            (establish-eq p e _ s1 (update_self s.objects p (some e))
              ((established_lem sockfd write_complete).0)),
        replace-IsValid p e e' s1 v1 (update_self s.objects p (some e)) refl,
        update_self s.connections s.next_conn_id (some (some p)),
        λ other h. update-ne s.connections s.next_conn_id other (some (some p)) h,
        λ q h. update-ne s1.objects p q (some e') h ∙ update-ne s.objects p q (some e) h,
        record {
          entry = e';
          object_eq = update_self s1.objects p (some e');
          name_eq = refl;
          loop_eq = refl;
          when = inl (ground (arith, mine), refl, refl);
        },
        refl,
      )
      | inr elsewhere ↦ (
        record s1 { posted = s.posted ++ p ∷ [] },
        rw (next_id-eq s.next_conn_id small, g, elsewhere, new_connection) refl,
        record {
          registered = λ name q h.
              let r = v1.registered name q h in
              record {
                given = r.given;
                entry = r.entry;
                object_eq = r.object_eq;
                name_eq = r.name_eq;
              };
        },
        update_self s.connections s.next_conn_id (some (some p)),
        λ other h. update-ne s.connections s.next_conn_id other (some (some p)) h,
        λ q h. update-ne s.objects p q (some e) h,
        record {
          entry = e;
          object_eq = update_self s.objects p (some e);
          name_eq = refl;
          loop_eq = refl;
          when = inr (ground (arith, elsewhere), refl, refl);
        },
        refl,
      )
    ]
  where
    e : Entry
    e = record {
      name = s.next_conn_id;
      io_loop = io_loop;
      tcp = TcpConnection.new sockfd write_complete;
    }

    e' : Entry
    e' = record e { tcp = established sockfd write_complete }

    s0 : TcpServer
    s0 = record s { next_conn_id = suc s.next_conn_id; thread_pool = pool }

    s1 : TcpServer
    s1 = register p e s0

    v0 : IsValid s0
    v0 = record {
      registered = λ name q h.
          let r = v.registered name q h in
          record {
            given = omega (arith, r.given);
            entry = r.entry;
            object_eq = r.object_eq;
            name_eq = r.name_eq;
          };
    }

    v1 : IsValid s1
    v1 = register-IsValid p e s0 v0 free (omega arith)
