-- ===== src/TcpConnection/Write.antt =====
-- `handleWrite` of TcpConnection.cc: the kernel takes bytes from the buffer, in their order.
use cppnetool.Prelude.{
  ℕ, ◌-◌, ◌≤◌, ◌<◌, ◌≡◌, refl, sym, ap, ◌∙◌, inl, inr, Bool, true, false, not, ◌&&◌, List, [], ◌∷◌,
  ◌++◌, arith, length, take, drop, min, ltb, Bool-cases, append_assoc, take-append-drop,
  length-drop, suc, lt→ltb,
}
use cppnetool.Prelude.Result.{ok}
use cppnetool.Buffer.{readable_bytes}
use cppnetool.Buffer.Invariant.{
  IsValid, contents, length-contents, readable_bytes-eq, take-drop-contents,
}
use cppnetool.Buffer.Consume.{retrieve_lem}
use cppnetool.Channel.{Channel, is_writing, disable_writing}
use cppnetool.Channel.Events.{mask_of, apply, write_off, switch, events-apply, is_writing-mask}
use cppnetool.TcpConnection.{
  TcpConnection, Written, wrote, would_block, write_failed, on_channel, is_disconnecting,
  all_written, after_write, handle_write, shutdown_in_loop, record_event, queue_write_complete,
  write_error,
}
use cppnetool.TcpConnection.Invariant.{
  View, Holds, is_pending, state_of, readable_bytes-pending, pending_empty, Holds-is_writing,
  Holds-record_event, Holds-queue_write_complete,
}
use cppnetool.TcpConnection.Send.{answer}

all_written-sending :
    (c : TcpConnection)
    → is_disconnecting c.state ≡ false
    → all_written c ≡ queue_write_complete (on_channel disable_writing c)
unfolding all_written
all_written-sending c e = elim (Bool-cases c.write_complete_callback) [
  | inl p ↦ rw (p, e) refl
  | inr p ↦ rw (p, e) refl
]

all_written-shutting :
    (c : TcpConnection)
    → is_disconnecting c.state ≡ true
    → is_writing (disable_writing c.channel) ≡ false
    → all_written c
      ≡ queue_write_complete (record (on_channel disable_writing c) { write_shut = true })
unfolding all_written shutdown_in_loop
all_written-shutting c e w = elim (Bool-cases c.write_complete_callback) [
  | inl p ↦ rw (p, e, w) refl
  | inr p ↦ rw (p, e, w) refl
]

disable_writing-events :
    (ch : Channel) (r : Bool)
    → ch.events ≡ mask_of r true
    → (disable_writing ch).events ≡ mask_of r false
unfolding apply switch
disable_writing-events ch r e = events-apply write_off ch (record { reading = r; writing = true }) e

is_disconnecting-state_of : (b : Bool) → is_disconnecting (state_of b) ≡ not b
is_disconnecting-state_of true = refl
is_disconnecting-state_of false = refl

shutdown_in_loop-output : (c : TcpConnection) → (shutdown_in_loop c).output ≡ c.output
unfolding shutdown_in_loop
shutdown_in_loop-output c = elim (Bool-cases (is_writing c.channel)) [
  | inl p ↦ rw p refl
  | inr p ↦ rw p refl
]

queue-output : (c : TcpConnection) → (queue_write_complete c).output ≡ c.output
queue-output c = elim (Bool-cases c.write_complete_callback) [
  | inl p ↦ rw p refl
  | inr p ↦ rw p refl
]

all_written-output : (c : TcpConnection) → (all_written c).output ≡ c.output
unfolding all_written
all_written-output c =
    let d = queue_write_complete (on_channel disable_writing c) in
    elim (Bool-cases (is_disconnecting d.state)) [
      | inl p ↦ rw p (shutdown_in_loop-output d ∙ queue-output (on_channel disable_writing c))
      | inr p ↦ rw p (queue-output (on_channel disable_writing c))
    ]

-- The last byte has gone: writing is disabled, and a pending half-close is made.
all_written_lem :
    (v : View) (k : ℕ) (c : TcpConnection) (r : Bool)
    → c.state ≡ state_of v.sending
    → IsValid c.output
    → c.output.writer_index ≤ k
    → c.wire ++ contents c.output ≡ v.sent
    → c.channel.events ≡ mask_of r true
    → c.write_shut ≡ false
    → is_pending (contents c.output) ≡ false
    → Holds v k (all_written c)
all_written_lem v k c r s o l t e w p = elim (Bool-cases v.sending) [
  | inl b ↦ rw (all_written-sending c (rw (s, is_disconnecting-state_of v.sending, b) refl)) (
      Holds-queue_write_complete v k _ (record {
        state_eq = s;
        output_valid = o;
        output_le = l;
        stream = t;
        reading = r;
        events_eq = rw p quiet;
        shut_eq = rw (w, b) refl;
      }))
  | inr b ↦
      rw
        (all_written-shutting c (rw (s, is_disconnecting-state_of v.sending, b) refl)
          (is_writing-mask (disable_writing c.channel) r false quiet))
        (Holds-queue_write_complete v k
          (record (on_channel disable_writing c) { write_shut = true })
          (record {
            state_eq = s;
            output_valid = o;
            output_le = l;
            stream = t;
            reading = r;
            events_eq = rw p quiet;
            shut_eq = rw (p, b) refl;
          }))
]
  where
    quiet : (disable_writing c.channel).events ≡ mask_of r false
    quiet = disable_writing-events c.channel r e

and_false : (b : Bool) → (b && false) ≡ false
and_false true = refl
and_false false = refl

after_write_lem :
    (n : ℕ) (v : View) (k : ℕ) (c : TcpConnection)
    → Holds v k c
    → is_pending (contents c.output) ≡ true
    → n ≤ length (contents c.output)
    → (c' : TcpConnection) × (after_write n c ≡ ok c')
      × Holds v k c'
      × (contents c'.output ≡ drop n (contents c.output))
unfolding after_write
after_write_lem n v k c h p le =
    let (b', e, d) = retrieve_lem n c.output h.output_valid le in
    let c' = record c { output = b'; wire = c.wire ++ take n (contents c.output) } in
    let stream : c'.wire ++ contents b' ≡ v.sent =
      rw (d.rest, ← h.stream)
        (append_assoc c.wire (take n (contents c.output)) (drop n (contents c.output))
          ∙ ap (λ bytes. c.wire ++ bytes) (take-append-drop n (contents c.output))) in
    let waiting : c.channel.events ≡ mask_of h.reading true = rw (h.events_eq, p) refl in
    let unshut : c.write_shut ≡ false = rw (h.shut_eq, p) (and_false (not v.sending)) in
    elim (Bool-cases (is_pending (contents b'))) [
      | inl more ↦ (
        c',
        rw (take-drop-contents c.output h.output_valid, e, readable_bytes-pending b' d.valid, more)
            refl,
        record {
          state_eq = h.state_eq;
          output_valid = d.valid;
          output_le = omega (arith, d.write_same, h.output_le);
          stream = stream;
          reading = h.reading;
          events_eq = rw more waiting;
          shut_eq = rw (more, unshut) (sym (and_false (not v.sending)));
        },
        d.rest,
      )
      | inr gone ↦ (
        all_written c',
        rw (take-drop-contents c.output h.output_valid, e, readable_bytes-pending b' d.valid, gone)
            refl,
        all_written_lem v k c' h.reading h.state_eq d.valid
            (omega (arith, d.write_same, h.output_le)) stream waiting unshut gone,
        rw (all_written-output c') d.rest,
      )
    ]

handle_write_pending :
    (w : Written) (v : View) (k : ℕ) (c : TcpConnection)
    → Holds v k c
    → is_pending (contents c.output) ≡ true
    → (c' : TcpConnection) × (handle_write (answer (readable_bytes c.output) w) c ≡ ok c')
      × Holds v k c'
unfolding handle_write
handle_write_pending (wrote m) v k c h p =
    elim (Bool-cases (ltb 0 (min m (readable_bytes c.output)))) [
      | inl some ↦
          let (c', e, h', f) = after_write_lem (min m (readable_bytes c.output)) v k c h p (
            omega (
              arith,
              readable_bytes-eq c.output h.output_valid,
              length-contents c.output h.output_valid,
            )) in
          (c', rw (Holds-is_writing v k c h, p, some) e, h')
      | inr none ↦ (
        record_event write_error c,
        rw (Holds-is_writing v k c h, p, none) refl,
        Holds-record_event write_error v k c h,
      )
    ]
handle_write_pending would_block v k c h p = (
  record_event write_error c,
  rw (Holds-is_writing v k c h, p) refl,
  Holds-record_event write_error v k c h,
)
handle_write_pending write_failed v k c h p = (
  record_event write_error c,
  rw (Holds-is_writing v k c h, p) refl,
  Holds-record_event write_error v k c h,
)

-- On a connection that agrees with its view `handleWrite` succeeds: what the kernel takes leaves the buffer for the wire, byte by byte in
-- order; when the buffer has become empty writing is disabled and a pending half-close is made, and
-- when the kernel takes nothing nothing changes but the log.
pub handle_write_lem :
    (w : Written) (v : View) (k : ℕ) (c : TcpConnection)
    → Holds v k c
    → (c' : TcpConnection) × (handle_write (answer (readable_bytes c.output) w) c ≡ ok c')
      × Holds v k c'
handle_write_lem w v k c h = elim (Bool-cases (is_pending (contents c.output))) [
  | inr p ↦ (c, unfold handle_write in rw (Holds-is_writing v k c h, p) refl, h)
  | inl p ↦ handle_write_pending w v k c h p
]

-- A turn in which the kernel takes at least a byte leaves fewer bytes waiting, at least one fewer.
pub handle_write_progress :
    (m : ℕ) (v : View) (k : ℕ) (c : TcpConnection)
    → Holds v k c
    → (c' : TcpConnection) × (handle_write (answer (readable_bytes c.output) (wrote (suc m))) c
        ≡ ok c')
      × Holds v k c'
      × (length (contents c'.output) ≤ length (contents c.output) - 1)
unfolding handle_write
handle_write_progress m v k c h = elim (Bool-cases (is_pending (contents c.output))) [
  | inr p ↦ (c, rw (Holds-is_writing v k c h, p) refl, h, rw (pending_empty _ p) (omega arith))
  | inl p ↦
      let n = min (suc m) (readable_bytes c.output) in
      let some : 0 < length (contents c.output) = pending_length _ p in
      let count : readable_bytes c.output ≡ length (contents c.output) =
        readable_bytes-eq c.output h.output_valid ∙ sym (length-contents c.output h.output_valid) in
      let (c', e, h', f) = after_write_lem n v k c h p (omega (arith, count)) in
      let took : ltb 0 n ≡ true = lt→ltb 0 n (omega (arith, count, some)) in
      (
        c',
        rw (Holds-is_writing v k c h, p, took) e,
        h',
        rw f (omega (arith, length-drop n (contents c.output), count, some)),
      )
]
  where
    pending_length : (bytes : List ℕ) → is_pending bytes ≡ true → 0 < length bytes
    pending_length [] e = ground arith
    pending_length (b ∷ bytes) e = omega arith
