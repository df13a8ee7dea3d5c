-- ===== src/Poller.antt =====
-- cppnetool/net/Poller.h and Poller.cc: the array that `poll` is given, the map from descriptors to
-- channels, and the registration of channels.
pub mod Invariant
pub mod Added
pub mod Update
pub mod Remove
pub mod Removal
pub mod Ignored
pub mod Active
mod Examples
use cppnetool.Prelude.{
  ℕ, zero, suc, ◌+◌, ◌-◌, ◌%◌, ◌^◌, Bool, true, false, not, ◌&&◌, ◌||◌, Option, none, some, List,
  [], ◌∷◌, ◌++◌, ltb, ◌==◌, if◌then◌else◌, length, get_elem?, set, take, update, is_some, points_to,
}
use cppnetool.Prelude.Int.{ℤ, pos, negsuc, eqb_ℤ}
use cppnetool.Prelude.Result.{Result, ok, err, assertion, check, need, ◌>>=◌, ◌>>◌}
use cppnetool.Channel.{Channel, is_none_event}

-- `struct pollfd`. A descriptor that is not to be polled is stored as -fd - 1, which is `negsuc fd`.
pub record PollFd : Type 0 where
  pub fd : ℤ
  pub events : ℕ
  pub revents : ℕ

-- `pollfds_`, `channels_`, and the objects that the pointers to channels lead to. A pointer is a
-- number, and `objects` has the channel at each.
pub record Poller : Type 0 where
  pub pollfds : List PollFd
  pub channels : ℕ → Option ℕ
  pub objects : ℕ → Channel

-- `static_cast<short>`: the low 16 bits.
abbrev pub to_short : ℕ → ℕ
to_short n = n % 2 ^ 16

abbrev pub set_index : Poller → ℕ → ℤ → Poller
set_index s p i = record s { objects = update s.objects p (record (s.objects p) { index = i }) }

-- A channel that is not known yet gets an entry at the end.
unfoldable pub add_channel : ℕ → Poller → Result Poller
add_channel p s = do
  let c = s.objects p
  check (not (is_some (s.channels c.fd)))
  let entry : PollFd = record { fd = pos c.fd; events = to_short c.events; revents = 0 }
  let grown = record s { pollfds = s.pollfds ++ entry ∷ [] }
  let indexed = set_index grown p (pos (length grown.pollfds - 1))
  ok (record indexed { channels = update indexed.channels c.fd (some p) })

-- The entry of a known channel; one with no events is stored as one to ignore.
abbrev pub refresh : Channel → PollFd → PollFd
refresh c e =
    let e' = record e { events = to_short c.events; revents = 0 } in
    if is_none_event c then record e' { fd = negsuc c.fd } else e'

unfoldable pub change_channel : ℕ → ℕ → Poller → Result Poller
change_channel idx p s = do
  let c = s.objects p
  check (is_some (s.channels c.fd))
  check (points_to (s.channels c.fd) p)
  check (ltb idx (length s.pollfds))
  e ← need (get_elem? s.pollfds idx)
  check (eqb_ℤ e.fd (pos c.fd) || eqb_ℤ e.fd (negsuc c.fd))
  ok (record s { pollfds = set s.pollfds idx (refresh c e) })

unfoldable pub update_channel : ℕ → Poller → Result Poller
unfolding add_channel change_channel
update_channel p s = elim (s.objects p).index [
  | negsuc n ↦ add_channel p s
  | pos idx ↦ change_channel idx p s
]

-- The descriptor of an entry, whether it is polled or ignored.
abbrev pub magnitude : ℤ → ℕ
magnitude (pos n) = n
magnitude (negsuc n) = n

-- The last entry takes the place of the one at `idx`.
unfoldable pub swap_with_last : ℕ → PollFd → PollFd → Poller → Result Poller
swap_with_last idx e last s = do
  let swapped = set (set s.pollfds idx last) (length s.pollfds - 1) e
  q ← need (s.channels (magnitude last.fd))
  let moved = set_index s q (pos idx)
  ok (record moved { pollfds = take (length swapped - 1) swapped })

unfoldable pub remove_at : ℕ → ℕ → Poller → Result Poller
unfolding swap_with_last
remove_at idx p s = do
  let c = s.objects p
  check (ltb idx (length s.pollfds))
  e ← need (get_elem? s.pollfds idx)
  check (eqb_ℤ e.fd (negsuc c.fd) && e.events == c.events)
  let erased = record s { channels = update s.channels c.fd none }
  last ← need (get_elem? s.pollfds (length s.pollfds - 1))
  if idx == length s.pollfds - 1
      then ok (record erased { pollfds = take (length s.pollfds - 1) s.pollfds })
      else swap_with_last idx e last erased

unfoldable pub remove_channel : ℕ → Poller → Result Poller
unfolding remove_at
remove_channel p s = do
  let c = s.objects p
  check (is_some (s.channels c.fd))
  check (points_to (s.channels c.fd) p)
  check (is_none_event c)
  elim c.index [ negsuc n ↦ err assertion | pos idx ↦ remove_at idx p s ]

-- `channels_.find(fd)`: the map has no negative key.
abbrev pub find_fd : Poller → ℤ → Option ℕ
find_fd s (pos f) = s.channels f
find_fd s (negsuc n) = none

-- One round of the loop of `fillActiveChannels`, for an entry that `poll` reported something on.
unfoldable pub report : PollFd → Poller → Result (ℕ × Poller)
report e s = do
  check (is_some (find_fd s e.fd))
  p ← need (find_fd s e.fd)
  let c = s.objects p
  check (eqb_ℤ (pos c.fd) e.fd)
  ok (p, record s { objects = update s.objects p (record c { revents = e.revents }) })

-- The loop, with the number of events that are still to be found. The channels come in the order
-- of the entries.
unfoldable pub fill_from : ℕ → List PollFd → Poller → Result (List ℕ × Poller)
fill_from n [] s = ok ([], s)
fill_from zero (e ∷ es) s = ok ([], s)
fill_from (suc n) (e ∷ es) s = elim (ltb 0 e.revents) [
  | false ↦ fill_from (suc n) es s
  | true ↦ do (p, s') ← report e s; (ps, t) ← fill_from n es s'; ok (p ∷ ps, t)
]

unfoldable pub fill_active_channels : ℕ → Poller → Result (List ℕ × Poller)
unfolding fill_from report
fill_active_channels num_events s = fill_from num_events s.pollfds s

-- What a call of `poll` gives: the number that it returns, where it is not negative, with what it
-- reports for each entry, or a failure.
pub data PollResult : Type 0 where
  reported : ℕ → List ℕ → PollResult
  poll_failed : PollResult

-- `poll` writes the `revents` of each entry.
unfoldable pub with_revents : List ℕ → List PollFd → List PollFd
with_revents rs [] = []
with_revents [] (e ∷ es) = e ∷ es
with_revents (r ∷ rs) (e ∷ es) = record e { revents = r } ∷ with_revents rs es

unfoldable pub poll : PollResult → Poller → Result (List ℕ × Poller)
unfolding with_revents fill_active_channels
poll poll_failed s = ok ([], s)
poll (reported num_events rs) s =
    let s' = record s { pollfds = with_revents rs s.pollfds } in
    if ltb 0 num_events then fill_active_channels num_events s' else ok ([], s')
