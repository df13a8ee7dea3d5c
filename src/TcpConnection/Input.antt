-- ===== src/TcpConnection/Input.antt =====
-- The sending side of a connection leaves the bytes that it has received alone.
use cppnetool.Prelude.{
  ℕ, ◌≡◌, refl, ◌∙◌, Bool, true, false, List, drop, length, ltb, subst, not, ◌&&◌, ◌==◌,
  if◌then◌else◌,
}
use cppnetool.Prelude.Result.{Result, Fault, ok, err, ◌>>=◌}
use cppnetool.Buffer.{Buffer, append, retrieve, readable_bytes}
use cppnetool.Channel.{disable_writing, is_writing}
use cppnetool.TcpConnection.{
  TcpConnection, Written, wrote, would_block, write_failed, send, send_in_loop, try_write,
  keep_rest, handle_write, after_write, all_written, shutdown_in_loop, on_channel, record_event,
  queue_write_complete, is_connected, is_disconnecting, write_complete_queued,
}

-- If the operation succeeds, the input buffer is `input`.
data InputIs (input : Buffer) : Result TcpConnection → Type 0 where
  kept : {c : TcpConnection} → c.input ≡ input → InputIs input (ok c)
  stopped : {fault : Fault} → InputIs input (err fault)

InputIs-ok : {input : Buffer} {c : TcpConnection} → InputIs input (ok c) → c.input ≡ input
InputIs-ok (kept h) = h

bind-InputIs :
    {B : Type 0} (input : Buffer) (r : Result B) (next : B → Result TcpConnection)
    → ((b : B) → InputIs input (next b))
    → InputIs input (r >>= next)
bind-InputIs input (ok b) next h = h b
bind-InputIs input (err fault) next h = stopped

if-InputIs :
    (input : Buffer) (b : Bool) (r s : Result TcpConnection)
    → InputIs input r
    → InputIs input s
    → InputIs input (if b then r else s)
if-InputIs input true r s h k = h
if-InputIs input false r s h k = k

either :
    (input : Buffer) (b : Bool) (c d : TcpConnection)
    → c.input ≡ input
    → d.input ≡ input
    → (if b then c else d).input ≡ input
either input true c d h k = h
either input false c d h k = k

keep_rest-InputIs : (rest : List ℕ) (c : TcpConnection) → InputIs c.input (keep_rest rest c)
unfolding keep_rest
keep_rest-InputIs rest c =
    bind-InputIs c.input (append rest c.output) _ (λ output. kept (either c.input _ _ _ refl refl))

try_write-input :
    (message : List ℕ) (w : Written) (c : TcpConnection) → (try_write message w c).1.input ≡ c.input
unfolding try_write
try_write-input message (wrote n) c =
    either c.input (ltb n (length message)) _ _ refl (either c.input _ _ _ refl refl)
try_write-input message would_block c = refl
try_write-input message write_failed c = refl

rest-InputIs :
    (message : List ℕ) (t : ℕ × TcpConnection) (input : Buffer)
    → t.1.input ≡ input
    → InputIs input (if ltb t.0 (length message) then keep_rest (drop t.0 message) t.1 else ok t.1)
rest-InputIs message t input h =
    if-InputIs input (ltb t.0 (length message)) _ _
      (subst (λ i. InputIs i (keep_rest (drop t.0 message) t.1)) h (keep_rest-InputIs _ t.1))
      (kept h)

direct-input :
    (direct : Bool) (message : List ℕ) (w : Written) (c : TcpConnection)
    → (if direct then try_write message w c else (0, c)).1.input ≡ c.input
direct-input true message w c = try_write-input message w c
direct-input false message w c = refl

send-InputIs :
    (message : List ℕ) (w : Written) (c : TcpConnection) → InputIs c.input (send message w c)
unfolding send send_in_loop
send-InputIs message w c =
    if-InputIs c.input (is_connected c.state) _ (ok c)
      (rest-InputIs message (if direct then try_write message w c else (0, c)) c.input
        (direct-input direct message w c))
      (kept {c = c} refl)
  where
    direct : Bool
    direct = not (is_writing c.channel) && readable_bytes c.output == 0

pub send-input :
    (message : List ℕ) (w : Written) (c c' : TcpConnection)
    → send message w c ≡ ok c'
    → c'.input ≡ c.input
send-input message w c c' e = InputIs-ok (subst (InputIs c.input) e (send-InputIs message w c))

shutdown_in_loop-input : (c : TcpConnection) → (shutdown_in_loop c).input ≡ c.input
unfolding shutdown_in_loop
shutdown_in_loop-input c =
    either c.input (is_writing c.channel) c (record c { write_shut = true }) refl refl

queue_write_complete-input : (c : TcpConnection) → (queue_write_complete c).input ≡ c.input
queue_write_complete-input c =
    either c.input c.write_complete_callback (record_event write_complete_queued c) c refl refl

all_written-input : (c : TcpConnection) → (all_written c).input ≡ c.input
unfolding all_written
all_written-input c =
    either c.input (is_disconnecting queued.state) (shutdown_in_loop queued) queued
      (shutdown_in_loop-input queued ∙ queued-input) queued-input
  where
    queued : TcpConnection
    queued = queue_write_complete (on_channel disable_writing c)

    queued-input : queued.input ≡ c.input
    queued-input = queue_write_complete-input (on_channel disable_writing c)

after_write-InputIs : (n : ℕ) (c : TcpConnection) → InputIs c.input (after_write n c)
unfolding after_write
after_write-InputIs n c =
    bind-InputIs c.input (retrieve n c.output) _
      (λ output. kept (either c.input _ _ _ (all_written-input _) refl))

handle_write-InputIs : (w : Written) (c : TcpConnection) → InputIs c.input (handle_write w c)
unfolding handle_write
handle_write-InputIs (wrote n) c =
    if-InputIs c.input _ _ _ (if-InputIs c.input _ _ _ (after_write-InputIs n c) (kept refl))
      (kept refl)
handle_write-InputIs would_block c = if-InputIs c.input _ _ _ (kept refl) (kept refl)
handle_write-InputIs write_failed c = if-InputIs c.input _ _ _ (kept refl) (kept refl)

pub handle_write-input :
    (w : Written) (c c' : TcpConnection) → handle_write w c ≡ ok c' → c'.input ≡ c.input
handle_write-input w c c' e = InputIs-ok (subst (InputIs c.input) e (handle_write-InputIs w c))
