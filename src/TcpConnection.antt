-- ===== src/TcpConnection.antt =====
-- cppnetool/net/TcpConnection.h and TcpConnection.cc: one connection, as its loop's thread runs it.
-- The callbacks that it makes and the functors that it queues are written to `log`; what the system
-- calls return is an argument of the function that makes them. The registration of the channel
-- with the poller is in `Poller`.
pub mod Invariant
pub mod Send
pub mod Write
pub mod Stream
pub mod Input
pub mod Lifecycle
mod Examples
use cppnetool.Prelude.{
  ℕ, suc, ◌-◌, ◌≡◌, Bool, true, false, not, ◌&&◌, ◌||◌, List, [], ◌∷◌, ◌++◌, ltb, ◌==◌,
  if◌then◌else◌, length, take, drop,
}
use cppnetool.Prelude.Result.{Result, ok, err, check, ◌>>=◌, ◌>>◌}
use cppnetool.Buffer.{
  Buffer, Readv, received, failed, readable_bytes, append, retrieve, read_fd, peek,
}
use cppnetool.Buffer
use cppnetool.Channel.{
  Channel, is_reading, is_writing, enable_reading, enable_writing, disable_writing, disable_all,
}
use cppnetool.Channel

-- `StateE`
pub data State : Type 0 where
  connecting connected disconnecting disconnected : State

-- What the connection does beside changing its fields: the callbacks, each with what is passed on,
-- the functors queued in the loop, and the error lines of the log.
pub data Event : Type 0 where
  connection_callback message_callback close_callback : Event
  write_complete_queued send_error write_error read_error : Event
  channel_removed : Event

-- `wire` holds the bytes that the kernel has taken, in order; `write_shut` and `read_shut` tell that
-- the socket was shut down for writing and for reading.
pub record TcpConnection : Type 0 where
  pub state : State
  pub channel : Channel
  pub input : Buffer
  pub output : Buffer
  pub write_complete_callback : Bool
  pub write_shut : Bool
  pub read_shut : Bool
  pub wire : List ℕ
  pub log : List Event

-- What `write` returns: the number of bytes taken, or -1 with `errno` `EWOULDBLOCK` or another.
pub data Written : Type 0 where
  wrote : ℕ → Written
  would_block write_failed : Written

abbrev pub is_connecting : State → Bool
is_connecting connecting = true
is_connecting _ = false

abbrev pub is_connected : State → Bool
is_connected connected = true
is_connected _ = false

abbrev pub is_disconnecting : State → Bool
is_disconnecting disconnecting = true
is_disconnecting _ = false

abbrev pub record_event : Event → TcpConnection → TcpConnection
record_event e c = record c { log = c.log ++ e ∷ [] }

abbrev pub on_channel : (Channel → Channel) → TcpConnection → TcpConnection
on_channel f c = record c { channel = f c.channel }

-- The constructor, with whether `writeCompleteCallback_` is set later by its owner.
unfoldable pub new : ℕ → Bool → TcpConnection
new sockfd write_complete_callback = record {
  state = connecting;
  channel = record (Channel.new sockfd) {
    read_callback = true;
    write_callback = true;
    error_callback = true;
    close_callback = true;
  };
  input = Buffer.new;
  output = Buffer.new;
  write_complete_callback = write_complete_callback;
  write_shut = false;
  read_shut = false;
  wire = [];
  log = [];
}

unfoldable pub connect_established : TcpConnection → Result TcpConnection
connect_established c = do
  check (is_connecting c.state)
  ok (record_event connection_callback (on_channel enable_reading (record c { state = connected })))

unfoldable pub connect_destroyed : TcpConnection → Result TcpConnection
connect_destroyed c = do
  check (is_connected c.state || is_disconnecting c.state)
  let disabled = on_channel disable_all (record c { state = disconnected })
  ok (record_event channel_removed (record_event connection_callback disabled))

unfoldable pub handle_close : TcpConnection → TcpConnection
handle_close c = record_event close_callback (on_channel disable_all c)

-- The branches of `handleRead` on the result of `readFd`.
unfoldable pub after_read : Readv → TcpConnection → TcpConnection
unfolding handle_close
after_read (failed errno) c = record_event read_error c
after_read (received []) c = handle_close c
after_read (received (b ∷ bytes)) c = record_event message_callback c

unfoldable pub handle_read : Readv → TcpConnection → Result TcpConnection
unfolding after_read
handle_read r c = do (n, input) ← read_fd r c.input; ok (after_read n (record c { input = input }))

-- `queueInLoop(std::bind(writeCompleteCallback_, this))`, where the callback is set.
abbrev pub queue_write_complete : TcpConnection → TcpConnection
queue_write_complete c =
    if c.write_complete_callback then record_event write_complete_queued c else c

unfoldable pub shutdown_in_loop : TcpConnection → TcpConnection
shutdown_in_loop c = if is_writing c.channel then c else record c { write_shut = true }

unfoldable pub shutdown_all_in_loop : TcpConnection → TcpConnection
shutdown_all_in_loop c =
    let c' = if is_writing c.channel then c else record c { write_shut = true } in
    if is_reading c'.channel then c' else record c' { read_shut = true }

-- What `handleWrite` does when the output buffer has become empty.
unfoldable pub all_written : TcpConnection → TcpConnection
unfolding shutdown_in_loop
all_written c =
    let c' = queue_write_complete (on_channel disable_writing c) in
    if is_disconnecting c'.state then shutdown_in_loop c' else c'

-- `handleWrite` after a `write` of the readable bytes took `n` of them.
unfoldable pub after_write : ℕ → TcpConnection → Result TcpConnection
after_write n c = do
  let taken = take n (take (readable_bytes c.output) (drop (peek c.output) c.output.storage))
  output ← retrieve n c.output
  let c' = record c { output = output; wire = c.wire ++ taken }
  ok (if readable_bytes output == 0 then all_written c' else c')

unfoldable pub handle_write : Written → TcpConnection → Result TcpConnection
handle_write w c =
    if is_writing c.channel
    then elim w [
      | wrote n ↦ if ltb 0 n then after_write n c else ok (record_event write_error c)
      | would_block ↦ ok (record_event write_error c)
      | write_failed ↦ ok (record_event write_error c)
    ]
    else ok c

-- The direct `write` of `sendInLoop`: how many bytes it took, and the connection after it.
unfoldable pub try_write : List ℕ → Written → TcpConnection → ℕ × TcpConnection
try_write message (wrote n) c =
    let c' = record c { wire = c.wire ++ take n message } in
    (n, if ltb n (length message) then c' else queue_write_complete c')
try_write message would_block c = (0, c)
try_write message write_failed c = (0, record_event send_error c)

-- What the kernel did not take goes to the output buffer.
unfoldable pub keep_rest : List ℕ → TcpConnection → Result TcpConnection
keep_rest rest c = do
  output ← append rest c.output
  let c' = record c { output = output }
  ok (if is_writing c'.channel then c' else on_channel enable_writing c')

unfoldable pub send_in_loop : List ℕ → Written → TcpConnection → Result TcpConnection
unfolding try_write keep_rest
send_in_loop message w c =
    let direct = not (is_writing c.channel) && readable_bytes c.output == 0 in
    let (n, c') : ℕ × TcpConnection = if direct then try_write message w c else (0, c) in
    if ltb n (length message) then keep_rest (drop n message) c' else ok c'

-- `send`, called in the loop's thread.
unfoldable pub send : List ℕ → Written → TcpConnection → Result TcpConnection
send message w c = if is_connected c.state then send_in_loop message w c else ok c

-- `shutdown` and `shutdownAll`, called in the loop's thread.
unfoldable pub shutdown : TcpConnection → TcpConnection
unfolding shutdown_in_loop
shutdown c =
    if is_connected c.state then shutdown_in_loop (record c { state = disconnecting }) else c

unfoldable pub shutdown_all : TcpConnection → TcpConnection
unfolding shutdown_all_in_loop
shutdown_all c =
    if is_connected c.state then shutdown_all_in_loop (record c { state = disconnecting }) else c
