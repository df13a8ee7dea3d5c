-- ===== src/Channel.antt =====
-- cppnetool/net/Channel.h and Channel.cc: the events that a file descriptor is watched for, and
-- the dispatch of what `poll` reports to the callbacks. `update`, which hands the channel to the
-- poller of its loop, is `Poller.update_channel`.
pub mod Dispatch
pub mod Events
mod Examples
use Prim.Native.Nat.{bit_and, bit_or}
use cppnetool.Prelude.{
  ℕ, ◌-◌, ◌^◌, ◌≡◌, refl, Bool, true, false, not, ◌&&◌, List, [], ◌∷◌, ◌++◌, ◌==◌, if◌then◌else◌,
}
use cppnetool.Prelude.Int.{ℤ, negsuc}

-- The bits of <poll.h>.
abbrev pub poll_in : ℕ
poll_in = 0x001

abbrev pub poll_pri : ℕ
poll_pri = 0x002

abbrev pub poll_out : ℕ
poll_out = 0x004

abbrev pub poll_err : ℕ
poll_err = 0x008

abbrev pub poll_hup : ℕ
poll_hup = 0x010

abbrev pub poll_nval : ℕ
poll_nval = 0x020

abbrev pub poll_rdhup : ℕ
poll_rdhup = 0x2000

abbrev pub none_event : ℕ
none_event = 0

abbrev pub read_event : ℕ
read_event = bit_or poll_in poll_pri

abbrev pub write_event : ℕ
write_event = poll_out

-- The fields of `Channel`; a callback is represented by whether it is set. `event_handling` is
-- `eventHandling_`, and `index` -1 means that the poller does not know the channel.
pub record Channel : Type 0 where
  pub fd : ℕ
  pub events : ℕ
  pub revents : ℕ
  pub index : ℤ
  pub event_handling : Bool
  pub read_callback : Bool
  pub write_callback : Bool
  pub error_callback : Bool
  pub close_callback : Bool

unfoldable pub new : ℕ → Channel
new fd = record {
  fd = fd;
  events = 0;
  revents = 0;
  index = negsuc 0;
  event_handling = false;
  read_callback = false;
  write_callback = false;
  error_callback = false;
  close_callback = false;
}

-- `x & mask`, as a condition.
abbrev pub has : ℕ → ℕ → Bool
has x mask = not (bit_and x mask == 0)

abbrev pub is_none_event : Channel → Bool
is_none_event c = c.events == none_event

abbrev pub is_writing : Channel → Bool
is_writing c = has c.events write_event

abbrev pub is_reading : Channel → Bool
is_reading c = has c.events read_event

-- What the four functions do to `events_` before they call `update`; `~` is over 32 bits.
unfoldable pub enable_reading : Channel → Channel
enable_reading c = record c { events = bit_or c.events read_event }

unfoldable pub enable_writing : Channel → Channel
enable_writing c = record c { events = bit_or c.events write_event }

unfoldable pub disable_writing : Channel → Channel
disable_writing c = record c { events = bit_and c.events (2 ^ 32 - 1 - write_event) }

unfoldable pub disable_all : Channel → Channel
disable_all c = record c { events = none_event }

-- The callbacks that `handleEvent` makes; the read callback gets the receive time.
pub data Call : Type 0 where
  on_error on_write on_close : Call
  on_read : ℕ → Call

-- The part of `handleEvent` from the test for readable data on. `return` ends it.
handle_input : ℕ → Channel → List Call × Channel
handle_input receive_time c =
    if has c.revents (bit_or poll_in (bit_or poll_pri poll_rdhup)) && c.read_callback
    then (on_read receive_time ∷ [], record c { event_handling = false })
    else if has c.revents poll_hup && not (has c.revents poll_in) && c.close_callback
    then (on_close ∷ [], record c { event_handling = false })
    else ([], c)

-- The callbacks in their order, and the channel afterwards. No callback writes `revents_`, which
-- only `Poller::fillActiveChannels` sets.
unfoldable pub handle_event : ℕ → Channel → List Call × Channel
unfolding handle_input
handle_event receive_time c =
    let errors =
      if has c.revents (bit_or poll_err poll_nval) && c.error_callback then on_error ∷ [] else [] in
    let writes = if has c.revents poll_out && c.write_callback then on_write ∷ [] else [] in
    let (input, c') = handle_input receive_time (record c { event_handling = true }) in
    ((errors ++ writes) ++ input, c')
