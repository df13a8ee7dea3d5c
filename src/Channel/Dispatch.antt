-- ===== src/Channel/Dispatch.antt =====
-- Which callbacks `handleEvent` makes, and in which order.
use Prim.Native.Nat.{bit_or}
use cppnetool.Prelude.{ℕ, suc, ◌≡◌, Bool, true, false, not, ◌&&◌, ◌||◌, List, [], ◌∷◌, ◌≤◌, arith}
use cppnetool.Channel.{
  Channel, Call, on_error, on_write, on_read, on_close, has, handle_event, poll_in, poll_pri,
  poll_out, poll_err, poll_hup, poll_nval, poll_rdhup,
}

-- The kinds of calls, in the order in which they are due.
abbrev pub rank : Call → ℕ
rank on_error = 1
rank on_write = 2
rank (on_read t) = 3
rank on_close = 3

-- The ranks rise, from above `n`: no callback is made twice, and one ends the round.
abbrev pub Rises : ℕ → List Call → Type 0
Rises n [] = Unit {0}
Rises n (k ∷ ks) = (suc n ≤ rank k) × Rises (rank k) ks

-- How often a callback stands in a list.
abbrev pub is_error : Call → Bool
is_error on_error = true
is_error _ = false

abbrev pub is_write : Call → Bool
is_write on_write = true
is_write _ = false

abbrev pub is_read : Call → Bool
is_read (on_read t) = true
is_read _ = false

abbrev pub is_close : Call → Bool
is_close on_close = true
is_close _ = false

abbrev pub any : (Call → Bool) → List Call → Bool
any p [] = false
any p (k ∷ ks) = p k || any p ks

-- The conditions on the reported events under which each callback is due.
abbrev pub readable : Channel → Bool
readable c = has c.revents (bit_or poll_in (bit_or poll_pri poll_rdhup))

-- The callbacks come in the order error, write, and then read or close but never both, each at most
-- once: the error callback exactly on POLLERR or POLLNVAL, the write callback exactly on POLLOUT,
-- the read callback exactly on readable data or a half-closed peer, and the close callback exactly
-- on a hang-up with no POLLIN where the read callback was not made; each only where it is set.
pub handle_event_lem :
    (now : ℕ) (c : Channel)
    → let ks = (handle_event now c).0 in
      Rises 0 ks
      × (any is_error ks ≡ (has c.revents (bit_or poll_err poll_nval) && c.error_callback))
      × (any is_write ks ≡ (has c.revents poll_out && c.write_callback))
      × (any is_read ks ≡ (readable c && c.read_callback))
      × (any is_close ks ≡ (
          not (readable c && c.read_callback)
          && (has c.revents poll_hup && not (has c.revents poll_in) && c.close_callback)))
unfolding handle_event
handle_event_lem now c = ground arith
