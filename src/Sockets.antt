-- ===== src/Sockets.antt =====
-- cppnetool/net/SocketOps.h, SocketOps.cc, Socket.cc and InetAddress.cc: what is made of the results of
-- the system calls, which are arguments. Addresses are kept in network order, which on the machine at
-- hand has the bytes the other way round.
pub mod Addresses
pub mod Accepting
mod Examples
use cppnetool.Prelude.{
  ℕ, ◌+◌, ◌-◌, ◌*◌, ◌/◌, ◌%◌, Bool, true, false, ◌&&◌, List, [], ◌∷◌, ◌++◌, Option, some, none,
  ◌==◌, if◌then◌else◌, take,
}
use cppnetool.Prelude.Result.{Result, ok, err, aborted, ◌>>=◌}
use cppnetool.Logging.{decimal}
use cppnetool.Acceptor.{Acceptor}
use cppnetool.Acceptor

-- The values of `errno` that are told apart behind `accept`, and any other one.
pub data Errno : Type 0 where
  eagain econnaborted eintr eproto eperm emfile : Errno
  ebadf efault einval enfile enobufs enomem enotsock eopnotsupp : Errno
  unknown : Errno

-- What a call gives that returns a number, or -1 and sets `errno`.
pub data Returned : Type 0 where
  gave : ℕ → Returned
  failed : Errno → Returned

-- `createNonblockingOrDie`
unfoldable pub create_nonblocking_or_die : Returned → Result ℕ
create_nonblocking_or_die (gave sockfd) = ok sockfd
create_nonblocking_or_die (failed e) = err aborted

-- `bindOrDie` and `listenOrDie`
unfoldable pub bind_or_die : Returned → Result (Unit {0})
bind_or_die (gave ret) = ok tt
bind_or_die (failed e) = err aborted

unfoldable pub listen_or_die : Returned → Result (Unit {0})
listen_or_die (gave ret) = ok tt
listen_or_die (failed e) = err aborted

-- The switch of `accept`, which returns -1 behind the errors that are expected.
unfoldable pub accept_failed : Errno → Result (Option ℕ)
accept_failed eagain = ok none
accept_failed econnaborted = ok none
accept_failed eintr = ok none
accept_failed eproto = ok none
accept_failed eperm = ok none
accept_failed emfile = ok none
accept_failed ebadf = err aborted
accept_failed efault = err aborted
accept_failed einval = err aborted
accept_failed enfile = err aborted
accept_failed enobufs = err aborted
accept_failed enomem = err aborted
accept_failed enotsock = err aborted
accept_failed eopnotsupp = err aborted
accept_failed unknown = err aborted

unfoldable pub accept : Returned → Result (Option ℕ)
accept (gave connfd) = ok (some connfd)
accept (failed e) = accept_failed e

-- `struct sockaddr_in`
pub record SockAddr : Type 0 where
  pub sin_port : ℕ
  pub sin_addr : ℕ

abbrev pub zeros : SockAddr
zeros = record { sin_port = 0; sin_addr = 0 }

-- `Socket::accept`, with the address that the call fills in.
unfoldable pub set_peer : Option ℕ → SockAddr → SockAddr → SockAddr
set_peer none addr peeraddr = peeraddr
set_peer (some connfd) addr peeraddr = addr

unfoldable pub socket_accept : Returned → SockAddr → SockAddr → Result (Option ℕ × SockAddr)
socket_accept r addr peeraddr = do connfd ← accept r; ok (connfd, set_peer connfd addr peeraddr)

-- `Acceptor::handleRead` from the system call on.
unfoldable pub acceptor_read : Returned → SockAddr → Acceptor → Result Acceptor
acceptor_read r addr a = do
  (connfd, peer) ← socket_accept r addr zeros
  ok (Acceptor.handle_read connfd a)

-- `htons` and `ntohs`
abbrev pub htons : ℕ → ℕ
htons port = (port % 256) * 256 + port / 256

-- The constructors of `InetAddress`; `parsed` is what `inet_pton` makes of the text, and where it fails the
-- address stays zero.
unfoldable pub any_address : ℕ → SockAddr
any_address port = record { sin_port = htons port; sin_addr = 0 }

unfoldable pub from_host_port : Option ℕ → ℕ → SockAddr
from_host_port none port = record { sin_port = htons port; sin_addr = 0 }
from_host_port (some parsed) port = record { sin_port = htons port; sin_addr = parsed }

-- What `inet_ntop` writes: the four bytes, in the order of the memory.
abbrev pub dotted : ℕ → List ℕ
dotted a =
    decimal (a % 256)
    ++ (46
        ∷ (decimal (a / 256 % 256)
            ++ (46 ∷ (decimal (a / 65536 % 256) ++ (46 ∷ decimal (a / 16777216 % 256))))))

-- `toHostPort`: the buffer of `size` characters takes the text and a zero.
unfoldable pub to_host_port : ℕ → SockAddr → List ℕ
to_host_port size addr =
    take (size - 1) (dotted addr.sin_addr ++ (58 ∷ decimal (htons addr.sin_port)))

-- `InetAddress::toHostPort`
abbrev pub address_text : SockAddr → List ℕ
address_text addr = to_host_port 32 addr

-- `getLocalAddr` and `getPeerAddr`: where the call fails the address is all zeros.
abbrev pub address_or_zeros : Option SockAddr → SockAddr
address_or_zeros none = zeros
address_or_zeros (some addr) = addr

-- `isSelfConnect`, with what `getsockname` and `getpeername` give.
unfoldable pub is_self_connect : Option SockAddr → Option SockAddr → Bool
is_self_connect name peer =
    let localaddr = address_or_zeros name in
    let peeraddr = address_or_zeros peer in
    localaddr.sin_port == peeraddr.sin_port && localaddr.sin_addr == peeraddr.sin_addr
