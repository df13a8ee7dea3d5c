-- ===== src/Session/Run.antt =====
-- A whole run of a session: nothing is lost, whichever way it goes.
use cppnetool.Prelude.{
  ℕ, and_left, and_right, ◌+◌, ◌≤◌, ◌≡◌, refl, sym, ap, ◌∙◌, Bool, true, false, not, ◌&&◌, List, [],
  ◌∷◌, ◌++◌, some, length, leb, arith, subst, length-append, append_assoc, append-nil,
}
use cppnetool.Prelude.Result.{ok}
use cppnetool.Buffer.{extra_size, max_size}
use cppnetool.TcpServer.{TcpServer, Entry}
use cppnetool.Session.{Session}
use cppnetool.Session.Carries.{Carries, room_for}
use cppnetool.Session.Relay.{
  Event, server_reads, server_writable, client_connects, client_reads, client_writable, step, run,
  is_possible, is_on, are_possible, are_on, from_server, from_client, all_from_server,
  all_from_client, times, next_times, last_times, Apart, Side, waits, forwards, Relays,
}
use cppnetool.Session.Others.{Apart-refl, Apart-trans}
use cppnetool.Session.Forward.{
  server_reads-waits, server_reads-forwards, client_connects-forwards, client_reads-forwards,
}
use cppnetool.Session.Writable.{server_writes-Relays, client_writes-Relays}

-- What a step gives.
abbrev Stepped : ℕ → Event → Bool → List ℕ → List ℕ → Session → TcpServer → Type 0
Stepped p e on a b s server =
    (s' : Session) × (server' : TcpServer) × (step p e s server ≡ ok (s', server'))
    × Relays p (is_on on e) (a ++ from_server e) (b ++ from_client e) s' server'
    × (times s' ≡ next_times on e (times s))
    × Apart p server server'

nothing_came :
    (p : ℕ) (e : Event) (on : Bool) (a b a' b' : List ℕ) (s : Session) (server : TcpServer)
    → a' ≡ a ++ from_server e
    → b' ≡ b ++ from_client e
    → (s' : Session) × (server' : TcpServer) × (step p e s server ≡ ok (s', server'))
      × Relays p (is_on on e) a' b' s' server'
      × (times s' ≡ next_times on e (times s))
      × Apart p server server'
    → Stepped p e on a b s server
nothing_came p e on a b a' b' s server ha hb (s', server', f, r, d, x) = (
  s',
  server',
  f,
  subst (λ y. Relays p (is_on on e) (a ++ from_server e) y s' server') hb
      (subst (λ x. Relays p (is_on on e) x b' s' server') ha r),
  d,
  x,
)

step_lem :
    (p : ℕ) (e : Event) (on : Bool) (a b waiting : List ℕ) (entry : Entry) (s : Session)
    (server : TcpServer)
    → server.connections s.name ≡ some (some p)
    → server.objects p ≡ some entry
    → Carries b a waiting entry.tcp
    → Side a s.client b on waiting
    → s.connecting ≡ not on
    → is_possible on e ≡ true
    → length (from_server e) + length (from_client e) ≤ extra_size
    → room_for a + extra_size ≤ max_size
    → room_for b + extra_size ≤ max_size
    → Stepped p e on a b s server
step_lem p (server_reads c bytes t) on a b waiting e s server h o r (waits off) i k n ma mb =
    server_reads-waits p c bytes t a e s server h o r off i (omega (arith, n)) ma
step_lem p (server_reads c bytes t) on a b waiting e s server h o r (forwards t1 i j rc) l k n ma
      mb =
    nothing_came p (server_reads c bytes t) true a b _ b s server refl (sym (append-nil b))
      (server_reads-forwards p c bytes t a b e t1 s server h o r i j l rc (omega (arith, n)) ma)
step_lem p (server_writable w) on a b waiting e s server h o r side i k n ma mb =
    nothing_came p (server_writable w) on a b a b s server (sym (append-nil a)) (sym (append-nil b))
      (server_writes-Relays p w on a b s server (record {
        in_map = h;
        entry = e;
        object_eq = o;
        waiting = waiting;
        server_side = r;
        client_side = side;
        connecting_eq = i;
      }))
step_lem p (client_connects sockfd wc t) on a b waiting e s server h o r (waits off) i k n ma mb =
    nothing_came p (client_connects sockfd wc t) false a [] a [] s server (sym (append-nil a)) refl
      (client_connects-forwards p sockfd wc t a e s server h o r ma)
step_lem p (client_connects sockfd wc t) on a b waiting e s server h o r (forwards t1 i j rc) l k n
      ma mb =
    absurd (cc (k))
step_lem p (client_reads c bytes t) on a b waiting e s server h o r (waits off) i k n ma mb =
    absurd (cc (k))
step_lem p (client_reads c bytes t) on a b waiting e s server h o r (forwards t1 i j rc) l k n ma
      mb =
    nothing_came p (client_reads c bytes t) true a b a _ s server (sym (append-nil a)) refl
      (client_reads-forwards p c bytes t a b e t1 s server h o r i j l rc (omega (arith, n)) mb)
step_lem p (client_writable w) on a b waiting e s server h o r (waits off) i k n ma mb =
    absurd (cc (k))
step_lem p (client_writable w) on a b waiting e s server h o r (forwards t1 i j rc) l k n ma mb =
    nothing_came p (client_writable w) true a b a b s server (sym (append-nil a))
      (sym (append-nil b)) (client_writes-Relays p w a b e t1 s server h o r i j l rc)

-- No event reads more than `extra_size` bytes.
abbrev pub is_small : Event → Bool
is_small e = leb (length (from_server e) + length (from_client e)) extra_size

abbrev pub are_small : List Event → Bool
are_small [] = true
are_small (e ∷ es) = is_small e && are_small es

-- From a session that relays, over any reads and writes in which the client connects at most once and
-- does nothing before, where no read gives more than 65536 bytes and all bytes fit into the largest
-- vector: no step fails; all bytes that came in at the client were sent to the server's
-- connection, in order; all that came in at the server's connection were sent to the client, or wait
-- in the input buffer until the client is connected; both times are the last that an event set; and
-- no other connection of the server is touched.
pub run-Relays :
    (es : List Event) (p : ℕ) (on : Bool) (a b : List ℕ) (s : Session) (server : TcpServer)
    → Relays p on a b s server
    → are_possible on es ≡ true
    → are_small es ≡ true
    → room_for (a ++ all_from_server es) + extra_size ≤ max_size
    → room_for (b ++ all_from_client es) + extra_size ≤ max_size
    → (s' : Session) × (server' : TcpServer) × (run p es s server ≡ ok (s', server'))
      × Relays p (are_on on es) (a ++ all_from_server es) (b ++ all_from_client es) s' server'
      × (times s' ≡ last_times on es (times s))
      × Apart p server server'
unfolding run
run-Relays [] p on a b s server r k n ma mb = (
  s,
  server,
  refl,
  subst (λ y. Relays p on (a ++ []) y s server) (sym (append-nil b))
      (subst (λ x. Relays p on x b s server) (sym (append-nil a)) r),
  refl,
  Apart-refl p server,
)
run-Relays (e ∷ es) p on a b s server r k n ma mb =
    let (s1, server1, f, r1, d, x1) =
      step_lem p e on a b r.waiting r.entry s server r.in_map r.object_eq r.server_side
        r.client_side r.connecting_eq (and_left (is_possible on e) (are_possible (is_on on e) es) k)
        (ground (arith, and_left (is_small e) (are_small es) n))
        (omega (arith, ma, length-append a (all_from_server (e ∷ es))))
        (omega (arith, mb, length-append b (all_from_client (e ∷ es)))) in
    let (s2, server2, g, r2, d2, x2) =
      run-Relays es p (is_on on e) (a ++ from_server e) (b ++ from_client e) s1 server1 r1
        (and_right (is_possible on e) (are_possible (is_on on e) es) k)
        (and_right (is_small e) (are_small es) n)
        (subst (λ x. room_for x + extra_size ≤ max_size) (sym to_a) ma)
        (subst (λ x. room_for x + extra_size ≤ max_size) (sym to_b) mb) in
    (
      s2,
      server2,
      rw f g,
      subst (λ y. Relays p (are_on on (e ∷ es)) (a ++ all_from_server (e ∷ es)) y s2 server2) to_b
          (subst
            (λ x.
              Relays p (are_on on (e ∷ es)) x ((b ++ from_client e) ++ all_from_client es) s2
                server2)
            to_a r2),
      d2 ∙ ap (last_times (is_on on e) es) d,
      Apart-trans p server server1 server2 x1 x2,
    )
  where
    to_a : (a ++ from_server e) ++ all_from_server es ≡ a ++ all_from_server (e ∷ es)
    to_a = append_assoc a (from_server e) (all_from_server es)

    to_b : (b ++ from_client e) ++ all_from_client es ≡ b ++ all_from_client (e ∷ es)
    to_b = append_assoc b (from_client e) (all_from_client es)
