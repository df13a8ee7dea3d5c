-- ===== src/TcpConnection/Send.antt =====
-- `send` of TcpConnection.cc: whatever the kernel takes at once, the rest waits in the buffer.
use cppnetool.Prelude.{
  ℕ, ◌+◌, ◌≤◌, ◌<◌, ◌≡◌, refl, sym, ap, ◌∙◌, inl, inr, Bool, true, false, List, [], ◌∷◌, ◌++◌,
  arith, length, take, drop, min, ltb, if◌then◌else◌, Bool-cases, ltb→lt, subst, append_assoc,
  take-append-drop, length-drop, append-nil, take_all,
}
use cppnetool.Prelude.Result.{Result, ok}
use cppnetool.Buffer.{Buffer, append, max_size}
use cppnetool.Buffer.Invariant.{contents}
use cppnetool.Buffer.Append.{append_lem}
use cppnetool.Channel.{Channel, is_writing, enable_writing}
use cppnetool.Channel.Events.{mask_of, apply, write_on, switch, events-apply}
use cppnetool.TcpConnection.{
  TcpConnection, Written, wrote, would_block, write_failed, keep_rest, try_write, send_in_loop,
  send, send_error,
}
use cppnetool.TcpConnection.Invariant.{
  View, Holds, is_pending, readable_bytes-pending, pending_empty, Holds-is_writing,
  Holds-is_connected, Holds-widen, Holds-record_event, Holds-queue_write_complete,
}

-- `write` never takes more than the `n` bytes that it is given.
abbrev pub answer : ℕ → Written → Written
answer n (wrote m) = wrote (min m n)
answer n would_block = would_block
answer n write_failed = write_failed

abbrev pub sent_more : List ℕ → View → View
sent_more bytes v = record v { sent = v.sent ++ bytes }

-- The interest after `keep_rest`.
abbrev watched : Channel → Channel
watched ch = if is_writing ch then ch else enable_writing ch

watched-events :
    (ch : Channel) (r w : Bool)
    → ch.events ≡ mask_of r w
    → is_writing ch ≡ w
    → (watched ch).events ≡ mask_of r true
unfolding apply switch
watched-events ch r true e p = rw p e
watched-events ch r false e p =
    rw p (events-apply write_on ch (record { reading = r; writing = false }) e)

keep_rest-channel :
    (rest : List ℕ) (c : TcpConnection) (b' : Buffer)
    → append rest c.output ≡ ok b'
    → keep_rest rest c ≡ ok (record c { output = b'; channel = watched c.channel })
unfolding keep_rest
keep_rest-channel rest c b' e = elim (Bool-cases (is_writing c.channel)) [
  | inl p ↦ rw (e, p) refl
  | inr p ↦ rw (e, p) refl
]

append_pending : (xs ys : List ℕ) → 0 < length ys → is_pending (xs ++ ys) ≡ true
append_pending [] [] h = ground arith
append_pending [] (y ∷ ys) h = refl
append_pending (x ∷ xs) ys h = refl

keep_rest_lem :
    (rest : List ℕ) (v : View) (k : ℕ) (c : TcpConnection)
    → Holds v k c
    → v.sending ≡ true
    → 0 < length rest
    → k + length rest ≤ max_size
    → (c' : TcpConnection) × (keep_rest rest c ≡ ok c')
      × Holds (sent_more rest v) (k + length rest) c'
keep_rest_lem rest v k c h o some m =
    let (b', e, a) = append_lem rest c.output h.output_valid (omega (arith, h.output_le, m)) in
    let p : is_pending (contents b') ≡ true =
      rw a.bytes_after (append_pending (contents c.output) rest some) in
    (
      record c { output = b'; channel = watched c.channel },
      keep_rest-channel rest c b' e,
      record {
        state_eq = h.state_eq;
        output_valid = a.valid;
        output_le = omega (arith, a.write_le, h.output_le);
        stream =
            rw (a.bytes_after, ← h.stream) (sym (append_assoc c.wire (contents c.output) rest));
        reading = h.reading;
        events_eq =
            rw p (watched-events c.channel h.reading _ h.events_eq (Holds-is_writing v k c h));
        shut_eq = rw (h.shut_eq, o) refl;
      },
    )

-- The bytes that went to the kernel past an empty buffer.
wire_lem :
    (taken : List ℕ) (v : View) (k : ℕ) (c : TcpConnection)
    → Holds v k c
    → contents c.output ≡ []
    → Holds (sent_more taken v) k (record c { wire = c.wire ++ taken })
wire_lem taken v k c h e = record {
  state_eq = h.state_eq;
  output_valid = h.output_valid;
  output_le = h.output_le;
  stream = rw (← h.stream, e, append-nil c.wire, append-nil (c.wire ++ taken)) refl;
  reading = h.reading;
  events_eq = h.events_eq;
  shut_eq = h.shut_eq;
}

-- What `sendInLoop` does once the kernel has taken the first `n` bytes, none of them into the buffer.
finish : List ℕ → ℕ → TcpConnection → Result TcpConnection
finish message n c = if ltb n (length message) then keep_rest (drop n message) c else ok c

sent_all :
    (message : List ℕ) (n : ℕ) (v : View)
    → sent_more (drop n message) (sent_more (take n message) v) ≡ sent_more message v
sent_all message n v =
    ap (λ bytes. record v { sent = bytes })
      (append_assoc v.sent (take n message) (drop n message)
        ∙ ap (λ bytes. v.sent ++ bytes) (take-append-drop n message))

finish_lem :
    (message : List ℕ) (n : ℕ) (v : View) (k : ℕ) (c : TcpConnection)
    → Holds (sent_more (take n message) v) k c
    → v.sending ≡ true
    → k + length message ≤ max_size
    → (c' : TcpConnection) × (finish message n c ≡ ok c')
      × Holds (sent_more message v) (k + length message) c'
unfolding finish
finish_lem message n v k c h o m = elim (Bool-cases (ltb n (length message))) [
  | inl short ↦
      let (c', e, h') =
        keep_rest_lem (drop n message) _ k c h o
          (omega (arith, length-drop n message, ltb→lt n (length message) short))
          (omega (arith, length-drop n message)) in
      (
        c',
        rw short e,
        Holds-widen _ (k + length (drop n message)) (k + length message) c'
            (omega (arith, length-drop n message))
            (subst (λ w. Holds w (k + length (drop n message)) c') (sent_all message n v) h'),
      )
  | inr enough ↦ (
    c,
    rw enough refl,
    Holds-widen _ k (k + length message) c (omega arith)
        (subst (λ bytes. Holds (sent_more bytes v) k c) (take_all n message (ground arith)) h),
  )
]

nothing_more : (v : View) (k : ℕ) (c : TcpConnection) → Holds v k c → Holds (sent_more [] v) k c
nothing_more v k c h =
    subst (λ bytes. Holds (record v { sent = bytes }) k c) (sym (append-nil v.sent)) h

-- The direct `write`, past an empty buffer.
try_write_lem :
    (message : List ℕ) (w : Written) (v : View) (k : ℕ) (c : TcpConnection)
    → Holds v k c
    → contents c.output ≡ []
    → let (n, c') : ℕ × TcpConnection = try_write message (answer (length message) w) c in
      Holds (sent_more (take n message) v) k c'
unfolding try_write
try_write_lem message (wrote m) v k c h e =
    let t = wire_lem (take (min m (length message)) message) v k c h e in
    elim (Bool-cases (ltb (min m (length message)) (length message))) [
      | inl short ↦ rw short t
      | inr enough ↦ rw enough (Holds-queue_write_complete _ k _ t)
    ]
try_write_lem message would_block v k c h e = nothing_more v k c h
try_write_lem message write_failed v k c h e =
    nothing_more v k _ (Holds-record_event send_error v k c h)

send_in_loop_lem :
    (message : List ℕ) (w : Written) (v : View) (k : ℕ) (c : TcpConnection)
    → Holds v k c
    → v.sending ≡ true
    → k + length message ≤ max_size
    → (c' : TcpConnection) × (send_in_loop message (answer (length message) w) c ≡ ok c')
      × Holds (sent_more message v) (k + length message) c'
unfolding send_in_loop finish
send_in_loop_lem message w v k c h o m = elim (Bool-cases (is_pending (contents c.output))) [
  | inl p ↦
      let (c', e, h') = finish_lem message 0 v k c (nothing_more v k c h) o m in
      (c', rw (Holds-is_writing v k c h, p) e, h')
  | inr p ↦
      let (n, d) : ℕ × TcpConnection = try_write message (answer (length message) w) c in
      let (c', e, h') =
        finish_lem message n v k d (try_write_lem message w v k c h (pending_empty _ p)) o m in
      (c', rw (Holds-is_writing v k c h, readable_bytes-pending c.output h.output_valid, p) e, h')
]

-- What the view makes of a message: nothing, once the connection is shutting down.
abbrev pub view_send : List ℕ → View → View
view_send message v = if v.sending then sent_more message v else v

-- On a connection that agrees with its view and where the message fits into the largest vector behind
-- what waits, `send` succeeds, however much of the message the kernel takes at once, with or without an error,
-- and every byte of it is on the wire or in the buffer, behind those before it, unless
-- the connection is shutting down, when nothing is sent.
pub send_lem :
    (message : List ℕ) (w : Written) (v : View) (k : ℕ) (c : TcpConnection)
    → Holds v k c
    → k + length message ≤ max_size
    → (c' : TcpConnection) × (send message (answer (length message) w) c ≡ ok c')
      × Holds (view_send message v) (k + length message) c'
unfolding send
send_lem message w v k c h m = elim (Bool-cases v.sending) [
  | inl o ↦
      let (c', e, h') = send_in_loop_lem message w v k c h o m in
      (
        c',
        rw (Holds-is_connected v k c h, o) e,
        subst (λ u. Holds u (k + length message) c') (view_send_open o) h',
      )
  | inr o ↦ (
    c,
    rw (Holds-is_connected v k c h, o) refl,
    subst (λ u. Holds u (k + length message) c) (view_send_shut o)
        (Holds-widen v k (k + length message) c (omega arith) h),
  )
]
  where
    view_send_open : v.sending ≡ true → sent_more message v ≡ view_send message v
    view_send_open o = rw o refl

    view_send_shut : v.sending ≡ false → v ≡ view_send message v
    view_send_shut o = rw o refl
