-- ===== src/TcpConnection/Lifecycle.antt =====
-- The end of a connection, and writing that is enabled with nothing to write.
use cppnetool.Prelude.{ℕ, ◌≡◌, refl, true, false, ◌||◌, List, arith, min}
use cppnetool.Prelude.Result.{ok, err, assertion}
use cppnetool.Buffer.{readable_bytes}
use cppnetool.Buffer.Invariant.{contents, readable_bytes-eq, length-contents}
use cppnetool.Channel.{is_writing, is_none_event, enable_writing, disable_all}
use cppnetool.Channel.Events.{apply, write_on, switch, events-apply, mask_of, is_writing-mask}
use cppnetool.TcpConnection.{
  TcpConnection, Written, wrote, would_block, write_failed, is_connected, is_disconnecting,
  connect_destroyed, send, shutdown, handle_write, on_channel, record_event, write_error,
  channel_removed, connection_callback, disconnected,
}
use cppnetool.TcpConnection.Invariant.{View, Holds, is_pending, pending_empty}
use cppnetool.TcpConnection.Send.{answer}

-- A connection that is connected or disconnecting is destroyed once: afterwards it is watched for
-- nothing, `send` and `shutdown` do nothing, and a second `connectDestroyed` fails its assertion.
pub connect_destroyed_lem :
    (message : List ℕ) (w : Written) (c : TcpConnection)
    → (is_connected c.state || is_disconnecting c.state) ≡ true
    → (c' : TcpConnection) × (connect_destroyed c ≡ ok c')
      × (is_none_event c'.channel ≡ true)
      × (send message w c' ≡ ok c')
      × (shutdown c' ≡ c')
      × (connect_destroyed c' ≡ err assertion)
unfolding connect_destroyed send shutdown disable_all
connect_destroyed_lem message w c h = (
  record_event channel_removed (
      record_event connection_callback
        (on_channel disable_all (record c { state = disconnected }))),
  rw h refl,
  refl,
  refl,
  refl,
  refl,
)

min_zero : (n : ℕ) → min n 0 ≡ 0
min_zero n = omega arith

stuck :
    (w : Written) (c : TcpConnection)
    → let d = on_channel enable_writing c in
      is_writing d.channel ≡ true
      → readable_bytes c.output ≡ 0
      → handle_write (answer (readable_bytes c.output) w) d ≡ ok (record_event write_error d)
unfolding handle_write
stuck (wrote n) c e z = rw (e, z, min_zero n) refl
stuck would_block c e z = rw e refl
stuck write_failed c e z = rw e refl

-- Where writing is enabled while the output buffer of a connection that agrees with its view is
-- empty, `handleWrite`, whatever `write` gives, does nothing but log an error, and leaves the channel
-- watched for writing.
pub handle_write_nothing :
    (w : Written) (v : View) (k : ℕ) (c : TcpConnection)
    → Holds v k c
    → is_pending (contents c.output) ≡ false
    → let d = on_channel enable_writing c in
      (handle_write (answer (readable_bytes d.output) w) d ≡ ok (record_event write_error d))
      × (is_writing d.channel ≡ true)
unfolding apply switch
handle_write_nothing w v k c h p = (stuck w c writing empty, writing)
  where
    events_eq : (enable_writing c.channel).events ≡ mask_of h.reading true
    events_eq =
        events-apply write_on c.channel (record { reading = h.reading; writing = false })
          (rw (h.events_eq, p) refl)

    writing : is_writing (enable_writing c.channel) ≡ true
    writing = is_writing-mask (enable_writing c.channel) h.reading true events_eq

    empty : readable_bytes c.output ≡ 0
    empty =
        rw
          (
            readable_bytes-eq c.output h.output_valid,
            ← length-contents c.output h.output_valid,
            pending_empty (contents c.output) p,
          )
          refl
