-- ===== src/Sockets/Accepting.antt =====
-- Which results of `accept` the process survives.
use cppnetool.Prelude.{
  ℕ, ◌≡◌, refl, Bool, true, false, List, [], ◌∷◌, ◌++◌, ap₂, inl, inr, Bool-cases, none,
  if◌then◌else◌,
}
use cppnetool.Prelude.Result.{ok, err, aborted}
use cppnetool.Acceptor.{Acceptor, handle_read}
use cppnetool.Sockets.{
  Errno, eagain, econnaborted, eintr, eproto, eperm, emfile, ebadf, efault, einval, enfile, enobufs,
  enomem, enotsock, eopnotsupp, unknown, Returned, gave, failed, accept, accept_failed, SockAddr,
  socket_accept, acceptor_read,
}

-- The errors that the peer or a limit of the process brings about.
abbrev pub is_expected : Errno → Bool
is_expected eagain = true
is_expected econnaborted = true
is_expected eintr = true
is_expected eproto = true
is_expected eperm = true
is_expected emfile = true
is_expected _ = false

abbrev pub survives : Returned → Bool
survives (gave connfd) = true
survives (failed e) = is_expected e

-- The socket that came, if one did.
abbrev pub arrived : Returned → List ℕ
arrived (gave connfd) = connfd ∷ []
arrived (failed e) = []

-- What becomes of the socket: it goes to the callback, or is closed where none is set.
abbrev pub taken : Returned → Acceptor → Acceptor
taken r a = record a {
  handed = (if a.new_connection_callback then arrived r else []) ++ a.handed;
  closed = (if a.new_connection_callback then [] else arrived r) ++ a.closed;
}

accept_failed-eq : (e : Errno) → accept_failed e ≡ (if is_expected e then ok none else err aborted)
unfolding accept_failed
accept_failed-eq eagain = refl
accept_failed-eq econnaborted = refl
accept_failed-eq eintr = refl
accept_failed-eq eproto = refl
accept_failed-eq eperm = refl
accept_failed-eq emfile = refl
accept_failed-eq ebadf = refl
accept_failed-eq efault = refl
accept_failed-eq einval = refl
accept_failed-eq enfile = refl
accept_failed-eq enobufs = refl
accept_failed-eq enomem = refl
accept_failed-eq enotsock = refl
accept_failed-eq eopnotsupp = refl
accept_failed-eq unknown = refl

nothing_taken : (e : Errno) (a : Acceptor) → taken (failed e) a ≡ a
nothing_taken e a = elim (Bool-cases a.new_connection_callback) [
  | inl on ↦ ap₂ (λ h c. record a { handed = h; closed = c }) (rw on refl) (rw on refl)
  | inr off ↦ ap₂ (λ h c. record a { handed = h; closed = c }) (rw off refl) (rw off refl)
]

-- When the listening socket is ready, a new socket goes to the callback of the acceptor, or is closed
-- where none is set; an expected error of `accept` leaves the acceptor as it is; and on any other
-- error the process is aborted.
pub acceptor_read_lem :
    (r : Returned) (addr : SockAddr) (a : Acceptor)
    → acceptor_read r addr a ≡ (if survives r then ok (taken r a) else err aborted)
unfolding acceptor_read socket_accept accept handle_read
acceptor_read_lem (gave connfd) addr a = elim (Bool-cases a.new_connection_callback) [
  | inl on ↦ rw on refl
  | inr off ↦ rw off refl
]
acceptor_read_lem (failed e) addr a = elim (Bool-cases (is_expected e)) [
  | inl fine ↦ rw (accept_failed-eq e, fine, nothing_taken e a) refl
  | inr bad ↦ rw (accept_failed-eq e, bad) refl
]
