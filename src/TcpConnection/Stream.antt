-- ===== src/TcpConnection/Stream.antt =====
-- The sending side of a connection over any events: `send`, `shutdown` and `handleWrite`.
use cppnetool.Prelude.{
  ℕ, suc, append-nil, ◌+◌, ◌≤◌, ◌≡◌, refl, sym, inl, inr, Bool, true, false, not, ◌&&◌, List, [],
  ◌∷◌, arith, length, Bool-cases, subst,
}
use cppnetool.Prelude.Result.{Result, ok, ◌>>=◌}
use cppnetool.Buffer.{readable_bytes, max_size, cheap_prepend, new}
use cppnetool.Buffer.Invariant.{contents, new-IsValid, contents-new}
use cppnetool.Channel.{is_writing, enable_reading}
use cppnetool.Channel
use cppnetool.TcpConnection.{
  TcpConnection, Written, wrote, State, connected, disconnecting, connecting, send, handle_write,
  shutdown, shutdown_in_loop, is_connected, connect_established, record_event, on_channel,
  connection_callback,
}
use cppnetool.TcpConnection
use cppnetool.TcpConnection.Invariant.{
  View, Holds, is_pending, Holds-is_writing, Holds-is_connected, Holds-widen,
}
use cppnetool.TcpConnection.Send.{answer, view_send, send_lem}
use cppnetool.TcpConnection.Write.{handle_write_lem, handle_write_progress}

-- What the owner and the kernel do, with what `write` is going to return.
pub data Op : Type 0 where
  sends : List ℕ → Written → Op
  writable : Written → Op
  shuts : Op

unfoldable pub step : Op → TcpConnection → Result TcpConnection
step (sends message w) c = send message (answer (length message) w) c
step (writable w) c = handle_write (answer (readable_bytes c.output) w) c
step shuts c = ok (shutdown c)

unfoldable pub run : List Op → TcpConnection → Result TcpConnection
run [] c = ok c
run (o ∷ os) c = do c' ← step o c; run os c'

unfoldable pub view_step : Op → View → View
view_step (sends message w) v = view_send message v
view_step (writable w) v = v
view_step shuts v = record v { sending = false }

unfoldable pub view_run : List Op → View → View
view_run [] v = v
view_run (o ∷ os) v = view_run os (view_step o v)

abbrev pub cost : Op → ℕ
cost (sends message w) = length message
cost (writable w) = 0
cost shuts = 0

abbrev pub total : List Op → ℕ
total [] = 0
total (o ∷ os) = cost o + total os

shut_connection :
    (v : View) (k : ℕ) (c : TcpConnection)
    → Holds v k c
    → v.sending ≡ true
    → Holds (record v { sending = false }) k (shutdown c)
unfolding shutdown shutdown_in_loop
shut_connection v k c h o = elim (Bool-cases (is_pending (contents c.output))) [
  | inl p ↦
      rw (shutdown, Holds-is_connected v k c h, o, Holds-is_writing v k c h, p)
        (record {
          state_eq = refl;
          output_valid = h.output_valid;
          output_le = h.output_le;
          stream = h.stream;
          reading = h.reading;
          events_eq = h.events_eq;
          shut_eq = rw (h.shut_eq, p, o) refl;
        })
  | inr p ↦
      rw (shutdown, Holds-is_connected v k c h, o, Holds-is_writing v k c h, p)
        (record {
          state_eq = refl;
          output_valid = h.output_valid;
          output_le = h.output_le;
          stream = h.stream;
          reading = h.reading;
          events_eq = h.events_eq;
          shut_eq = rw p refl;
        })
]

shutdown_lem :
    (v : View) (k : ℕ) (c : TcpConnection)
    → Holds v k c
    → Holds (record v { sending = false }) k (shutdown c)
unfolding shutdown
shutdown_lem v k c h = elim (Bool-cases v.sending) [
  | inl o ↦ shut_connection v k c h o
  | inr o ↦
      rw (shutdown, Holds-is_connected v k c h, o)
        (subst (λ b. Holds (record v { sending = b }) k c) o h)
]

step_lem :
    (o : Op) (v : View) (k : ℕ) (c : TcpConnection)
    → Holds v k c
    → k + cost o ≤ max_size
    → (c' : TcpConnection) × (step o c ≡ ok c') × Holds (view_step o v) (k + cost o) c'
unfolding step view_step
step_lem (sends message w) v k c h m = send_lem message w v k c h m
step_lem (writable w) v k c h m =
    let (c', e, h') = handle_write_lem w v k c h in
    (c', e, Holds-widen v k (k + 0) c' (omega arith) h')
step_lem shuts v k c h m =
    (shutdown c, refl, Holds-widen _ k (k + 0) _ (omega arith) (shutdown_lem v k c h))

-- From a connection that agrees with its view, over any sends, shutdowns and turns of the kernel, as
-- long as the bytes sent fit into the largest vector: no step fails, and what is on the wire with
-- what is in the output buffer is the bytes sent before the first `shutdown`, in order, none
-- lost and none twice; the connection is watched for writing exactly while the buffer holds
-- bytes, and the socket is half-closed exactly when it is shut down and the buffer is empty.
pub run_lem :
    (os : List Op) (v : View) (k : ℕ) (c : TcpConnection)
    → Holds v k c
    → k + total os ≤ max_size
    → (c' : TcpConnection) × (run os c ≡ ok c') × Holds (view_run os v) (k + total os) c'
unfolding run view_run
run_lem [] v k c h m = (c, refl, Holds-widen v k (k + 0) c (omega arith) h)
run_lem (o ∷ os) v k c h m =
    let (c', e, h') = step_lem o v k c h (omega arith) in
    let (d, f, i) = run_lem os (view_step o v) (k + cost o) c' h' (omega arith) in
    (d, rw e f, Holds-widen _ (k + cost o + total os) (k + (cost o + total os)) d (omega arith) i)

abbrev pub fresh_view : View
fresh_view = record { sending = true; sent = [] }

abbrev pub established : ℕ → Bool → TcpConnection
established fd b =
    record_event connection_callback
      (on_channel enable_reading (record (TcpConnection.new fd b) { state = connected }))

-- A new connection that is established.
pub established_lem :
    (fd : ℕ) (b : Bool)
    → (connect_established (TcpConnection.new fd b) ≡ ok (established fd b))
      × Holds fresh_view cheap_prepend (established fd b)
unfolding connect_established TcpConnection.new Channel.new enable_reading
established_lem fd b = (
  refl,
  record {
    state_eq = refl;
    output_valid = new-IsValid;
    output_le = unfold new in omega arith;
    stream = contents-new;
    reading = true;
    events_eq = rw contents-new refl;
    shut_eq = refl;
  },
)

-- Turns in each of which the kernel takes at least a byte, where there is one.
abbrev pub turns : List ℕ → List Op
turns [] = []
turns (m ∷ ms) = writable (wrote (suc m)) ∷ turns ms

length_zero : (bytes : List ℕ) → length bytes ≤ 0 → bytes ≡ []
length_zero [] h = refl
length_zero (b ∷ bytes) h = ground arith

and_true : (b : Bool) → (b && true) ≡ b
and_true true = refl
and_true false = refl

-- For a connection that agrees with its view, when the kernel has taken at least a byte as often as bytes were waiting, everything sent is on the
-- wire, the connection is no longer watched for writing, and it is half-closed if it was shut down.
pub turns_lem :
    (ms : List ℕ) (v : View) (k : ℕ) (c : TcpConnection)
    → Holds v k c
    → length (contents c.output) ≤ length ms
    → (c' : TcpConnection) × (run (turns ms) c ≡ ok c')
      × (c'.wire ≡ v.sent)
      × (is_writing c'.channel ≡ false)
      × (c'.write_shut ≡ not v.sending)
unfolding run step
turns_lem [] v k c h m =
    let none : contents c.output ≡ [] = length_zero (contents c.output) m in
    (
      c,
      refl,
      rw (← h.stream, none) (sym (append-nil c.wire)),
      rw (Holds-is_writing v k c h, none) refl,
      rw (h.shut_eq, none) (and_true (not v.sending)),
    )
turns_lem (n ∷ ms) v k c h m =
    let (c', e, h', less) = handle_write_progress n v k c h in
    let (d, f, wire, quiet, shut) = turns_lem ms v k c' h' (omega (arith, less, m)) in
    (d, rw e f, wire, quiet, shut)
