-- ===== src/Acceptor.antt =====
-- cppnetool/net/Acceptor.h and Acceptor.cc: new sockets go to the callback, or are closed where none
-- is set. `handed` and `closed` are these sockets, with the latest first.
mod Examples
use cppnetool.Prelude.{ℕ, Bool, true, false, List, [], ◌∷◌, Option, some, none, if◌then◌else◌}
use cppnetool.Channel.{Channel, enable_reading}
use cppnetool.Channel

pub record Acceptor : Type 0 where
  pub channel : Channel
  pub listenning : Bool
  pub new_connection_callback : Bool
  pub handed : List ℕ
  pub closed : List ℕ

unfoldable pub new : ℕ → Acceptor
new fd = record {
  channel = record (Channel.new fd) { read_callback = true };
  listenning = false;
  new_connection_callback = false;
  handed = [];
  closed = [];
}

unfoldable pub listen : Acceptor → Acceptor
listen a = record a { listenning = true; channel = enable_reading a.channel }

-- `handleRead`, with the socket that `accept` gives, or none where it fails.
unfoldable pub handle_read : Option ℕ → Acceptor → Acceptor
handle_read none a = a
handle_read (some connfd) a =
    if a.new_connection_callback
    then record a { handed = connfd ∷ a.handed }
    else record a { closed = connfd ∷ a.closed }
