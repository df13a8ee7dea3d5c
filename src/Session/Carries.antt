-- ===== src/Session/Carries.antt =====
-- One of the two connections of a session, on its own.
use cppnetool.Prelude.{
  ℕ, ◌+◌, ◌≤◌, ◌≡◌, refl, ◌∙◌, Bool, true, List, [], ◌∷◌, ◌++◌, length, arith, length-append,
}
use cppnetool.Prelude.Result.{ok}
use cppnetool.Buffer.{
  Buffer, readable_bytes, received, cheap_prepend, initial_size, extra_size, max_size,
  retrieve_as_string, new,
}
use cppnetool.Buffer.Invariant.{IsValid, contents, new-IsValid, contents-new}
use cppnetool.Buffer.Consume.{retrieve_as_string_lem}
use cppnetool.Buffer.ReadFd.{read_fd_lem}
use cppnetool.TcpConnection.{
  TcpConnection, Written, handle_read, handle_write, send, after_read, record_event,
  message_callback,
}
use cppnetool.TcpConnection
use cppnetool.TcpConnection.Invariant.{View, Holds, Holds-widen, Holds-record_event}
use cppnetool.TcpConnection.Send.{answer, send_lem}
use cppnetool.TcpConnection.Write.{handle_write_lem}
use cppnetool.TcpConnection.Stream.{established, established_lem}
use cppnetool.TcpConnection.Input.{send-input, handle_write-input}
use cppnetool.Session.{input_string, drain}

abbrev pub sending : List ℕ → View
sending bytes = record { sending = true; sent = bytes }

-- The size of a buffer that has taken the bytes.
abbrev pub room_for : List ℕ → ℕ
room_for bytes = cheap_prepend + initial_size + length bytes

-- A connection that was given `sent` to send, and holds `waiting` of the bytes that came in.
pub record Carries (sent came waiting : List ℕ) (c : TcpConnection) : Type 0 where
  pub holds : Holds (sending sent) (cheap_prepend + length sent) c
  pub input_valid : IsValid c.input
  pub input_le : length c.input.storage ≤ room_for came
  pub input_eq : contents c.input ≡ waiting

Holds-input :
    (i : Buffer) (v : View) (k : ℕ) (c : TcpConnection)
    → Holds v k c
    → Holds v k (record c { input = i })
Holds-input i v k c h = record {
  state_eq = h.state_eq;
  output_valid = h.output_valid;
  output_le = h.output_le;
  stream = h.stream;
  reading = h.reading;
  events_eq = h.events_eq;
  shut_eq = h.shut_eq;
}

-- An operation that does not touch the input.
same-input :
    (sent sent' came waiting : List ℕ) (c c' : TcpConnection)
    → Carries sent came waiting c
    → c'.input ≡ c.input
    → Holds (sending sent') (cheap_prepend + length sent') c'
    → Carries sent' came waiting c'
same-input sent sent' came waiting c c' r e h = record {
  holds = h;
  input_valid = rw e r.input_valid;
  input_le = rw e r.input_le;
  input_eq = rw e r.input_eq;
}

pub send-Carries :
    (message : List ℕ) (w : Written) (sent came waiting : List ℕ) (c : TcpConnection)
    → Carries sent came waiting c
    → room_for sent + length message ≤ max_size
    → (c' : TcpConnection) × (send message (answer (length message) w) c ≡ ok c')
      × Carries (sent ++ message) came waiting c'
send-Carries message w sent came waiting c r m =
    let (c', e, h) =
      send_lem message w (sending sent) (cheap_prepend + length sent) c r.holds
        (omega (arith, m)) in
    (
      c',
      e,
      same-input sent (sent ++ message) came waiting c c' r
          (send-input message (answer (length message) w) c c' e)
          (Holds-widen _ _ _ c' (omega (arith, length-append sent message)) h),
    )

pub handle_write-Carries :
    (w : Written) (sent came waiting : List ℕ) (c : TcpConnection)
    → Carries sent came waiting c
    → (c' : TcpConnection) × (handle_write (answer (readable_bytes c.output) w) c ≡ ok c')
      × Carries sent came waiting c'
handle_write-Carries w sent came waiting c r =
    let (c', e, h) = handle_write_lem w (sending sent) (cheap_prepend + length sent) c r.holds in
    (
      c',
      e,
      same-input sent sent came waiting c c' r
          (handle_write-input (answer (readable_bytes c.output) w) c c' e) h,
    )

pub input_string-Carries :
    (sent came waiting : List ℕ) (c : TcpConnection)
    → Carries sent came waiting c
    → input_string c ≡ waiting
input_string-Carries sent came waiting c r =
    (retrieve_as_string_lem c.input r.input_valid).0 ∙ r.input_eq

pub drain-Carries :
    (sent came waiting : List ℕ) (c : TcpConnection)
    → Carries sent came waiting c
    → Carries sent came [] (drain c)
unfolding retrieve_as_string
drain-Carries sent came waiting c r =
    let (all, none, valid) = retrieve_as_string_lem c.input r.input_valid in
    record {
      holds = Holds-input _ _ _ c r.holds;
      input_valid = valid;
      input_le = r.input_le;
      input_eq = none;
    }

pub handle_read-Carries :
    (b : ℕ) (bytes sent came waiting : List ℕ) (c : TcpConnection)
    → Carries sent came waiting c
    → length (b ∷ bytes) ≤ extra_size
    → room_for came + extra_size ≤ max_size
    → (c' : TcpConnection) × (handle_read (received (b ∷ bytes)) c ≡ ok c')
      × Carries sent (came ++ b ∷ bytes) (waiting ++ b ∷ bytes) c'
unfolding handle_read after_read
handle_read-Carries b bytes sent came waiting c r small m =
    let (i, e, valid, after, larger) =
      read_fd_lem (b ∷ bytes) c.input r.input_valid (omega (arith, small))
        (omega (arith, r.input_le, m)) in
    (
      record_event message_callback (record c { input = i }),
      rw e refl,
      record {
        holds =
            Holds-input i _ _ (record_event message_callback c)
              (Holds-record_event message_callback _ _ c r.holds);
        input_valid = valid;
        input_le = omega (arith, larger, r.input_le, length-append came (b ∷ bytes));
        input_eq = rw (after, r.input_eq) refl;
      },
    )

pub established-Carries : (fd : ℕ) (b : Bool) → Carries [] [] [] (established fd b)
unfolding new TcpConnection.new
established-Carries fd b = record {
  holds = Holds-widen _ _ _ (established fd b) (omega arith) ((established_lem fd b).1);
  input_valid = new-IsValid;
  input_le = omega arith;
  input_eq = contents-new;
}
