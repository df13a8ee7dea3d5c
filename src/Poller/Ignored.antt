-- ===== src/Poller/Ignored.antt =====
-- An entry that `updateChannel` has once marked to be ignored is never polled again, since no
-- branch writes the descriptor back.
use cppnetool.Prelude.{ℕ, ◌≡◌, some, get_elem?}
use cppnetool.Prelude.Int.{pos, negsuc}
use cppnetool.Channel.{Channel}
use cppnetool.Poller.{PollFd, Poller}

-- The entry of the channel is one that `poll` ignores.
pub record IsIgnored (p : ℕ) (s : Poller) : Type 0 where
  pub at : ℕ
  pub index_eq : (s.objects p).index ≡ pos at
  pub entry : PollFd
  pub found : get_elem? s.pollfds at ≡ some entry
  pub negative : (n : ℕ) × (entry.fd ≡ negsuc n)
