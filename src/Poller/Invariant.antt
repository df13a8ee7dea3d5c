-- ===== src/Poller/Invariant.antt =====
-- How the poller's array, its map and the registered channels fit together.
use cppnetool.Prelude.{ℕ, ◌≡◌, [], none, some, get_elem?}
use cppnetool.Prelude.Int.{pos}
use cppnetool.Channel.{Channel}
use cppnetool.Poller.{PollFd, Poller, magnitude}

-- The channel at `p` is the one that the map has for `f`, and its index leads to an entry for `f`.
pub record Owns (s : Poller) (f p : ℕ) : Type 0 where
  pub fd_eq : (s.objects p).fd ≡ f
  pub at : ℕ
  pub index_eq : (s.objects p).index ≡ pos at
  pub entry : PollFd
  pub found : get_elem? s.pollfds at ≡ some entry
  pub entry_fd : magnitude entry.fd ≡ f

-- The entry at `i` belongs to a channel of the map that has `i` for its index.
pub record Owned (s : Poller) (i : ℕ) (e : PollFd) : Type 0 where
  pub owner : ℕ
  pub in_map : s.channels (magnitude e.fd) ≡ some owner
  pub index_eq : (s.objects owner).index ≡ pos i

-- The map and the array name the same channels.
pub record IsValid (s : Poller) : Type 0 where
  pub owns : (f p : ℕ) → s.channels f ≡ some p → Owns s f p
  pub owned : (i : ℕ) (e : PollFd) → get_elem? s.pollfds i ≡ some e → Owned s i e

-- The channel is in the map under its own descriptor.
abbrev pub Registered : Poller → ℕ → Type 0
Registered s p = s.channels (s.objects p).fd ≡ some p

abbrev pub empty : (ℕ → Channel) → Poller
empty objects = record { pollfds = []; channels = λ f. none; objects = objects }

pub empty-IsValid : (objects : ℕ → Channel) → IsValid (empty objects)
empty-IsValid objects = record { owns = λ f p e. absurd (cc); owned = λ i e h. absurd (cc) }
