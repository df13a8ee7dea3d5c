-- ===== src/TcpConnection/Invariant.antt =====
-- What holds of a connection between two events of its loop, against the abstract view of it: the
-- bytes that it was given to send, and whether it still takes any.
use cppnetool.Prelude.{
  ℕ, ◌≤◌, ◌≡◌, refl, Bool, true, false, not, ◌&&◌, List, [], ◌∷◌, ◌++◌, arith, length, ◌==◌,
  if◌then◌else◌,
}
use cppnetool.Buffer.{Buffer, readable_bytes}
use cppnetool.Buffer.Invariant.{IsValid, contents, length-contents, readable_bytes-eq}
use cppnetool.Channel.{is_writing}
use cppnetool.Channel.Events.{mask_of, is_writing-mask}
use cppnetool.TcpConnection.{
  TcpConnection, State, connected, disconnecting, is_connected, Event, record_event,
  queue_write_complete,
}

pub record View : Type 0 where
  pub sending : Bool
  pub sent : List ℕ

abbrev pub is_pending : List ℕ → Bool
is_pending [] = false
is_pending (b ∷ bytes) = true

abbrev pub state_of : Bool → State
state_of true = connected
state_of false = disconnecting

-- `k` bounds the write index of the output buffer.
pub record Holds (v : View) (k : ℕ) (c : TcpConnection) : Type 0 where
  pub state_eq : c.state ≡ state_of v.sending
  pub output_valid : IsValid c.output
  pub output_le : c.output.writer_index ≤ k
  pub stream : c.wire ++ contents c.output ≡ v.sent
  pub reading : Bool
  pub events_eq : c.channel.events ≡ mask_of reading (is_pending (contents c.output))
  pub shut_eq : c.write_shut ≡ (not v.sending && not (is_pending (contents c.output)))

pub Holds-is_writing :
    (v : View) (k : ℕ) (c : TcpConnection)
    → Holds v k c
    → is_writing c.channel ≡ is_pending (contents c.output)
Holds-is_writing v k c h = is_writing-mask c.channel h.reading _ h.events_eq

state_of-is_connected : (b : Bool) → is_connected (state_of b) ≡ b
state_of-is_connected true = refl
state_of-is_connected false = refl

pub Holds-is_connected :
    (v : View) (k : ℕ) (c : TcpConnection) → Holds v k c → is_connected c.state ≡ v.sending
Holds-is_connected v k c h = rw (h.state_eq) (state_of-is_connected v.sending)

is_pending-length : (bytes : List ℕ) → (length bytes == 0) ≡ not (is_pending bytes)
is_pending-length [] = refl
is_pending-length (b ∷ bytes) = ground arith

pub readable_bytes-pending :
    (b : Buffer) → IsValid b → (readable_bytes b == 0) ≡ not (is_pending (contents b))
readable_bytes-pending b v =
    rw (readable_bytes-eq b v, ← length-contents b v) (is_pending-length (contents b))

pub pending_empty : (bytes : List ℕ) → is_pending bytes ≡ false → bytes ≡ []
pending_empty [] e = refl
pending_empty (b ∷ bytes) e = ground arith

pub Holds-widen : (v : View) (k l : ℕ) (c : TcpConnection) → k ≤ l → Holds v k c → Holds v l c
Holds-widen v k l c p h = record {
  state_eq = h.state_eq;
  output_valid = h.output_valid;
  output_le = omega (arith, h.output_le, p);
  stream = h.stream;
  reading = h.reading;
  events_eq = h.events_eq;
  shut_eq = h.shut_eq;
}

-- The log is not looked at.
pub Holds-record_event :
    (e : Event) (v : View) (k : ℕ) (c : TcpConnection) → Holds v k c → Holds v k (record_event e c)
Holds-record_event e v k c h = record {
  state_eq = h.state_eq;
  output_valid = h.output_valid;
  output_le = h.output_le;
  stream = h.stream;
  reading = h.reading;
  events_eq = h.events_eq;
  shut_eq = h.shut_eq;
}

queue_if :
    (b : Bool) (e : Event) (v : View) (k : ℕ) (c : TcpConnection)
    → Holds v k c
    → Holds v k (if b then record_event e c else c)
queue_if true e v k c h = Holds-record_event e v k c h
queue_if false e v k c h = h

pub Holds-queue_write_complete :
    (v : View) (k : ℕ) (c : TcpConnection) → Holds v k c → Holds v k (queue_write_complete c)
Holds-queue_write_complete v k c h = queue_if c.write_complete_callback _ v k c h
