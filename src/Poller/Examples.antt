-- ===== src/Poller/Examples.antt =====
-- The poller's theorems at two registered channels.
use cppnetool.Prelude.{
  ℕ, zero, suc, get_elem?, Bool-cases, ◌≡◌, refl, inl, inr, [], ◌∷◌, Option, none, some, arith,
  ◌==◌, if◌then◌else◌,
}
use cppnetool.Prelude.Int.{pos, negsuc}
use cppnetool.Prelude.Result.{ok}
use cppnetool.Channel.{Channel, new}
use cppnetool.Poller.{PollFd, Poller, update_channel}
use cppnetool.Poller.Active.{Found, quiet, active, all_seen, Reported, fill_active_channels_lem}
use cppnetool.Poller.{fill_active_channels}
use cppnetool.Poller.Invariant.{Owns, Owned, IsValid}
use cppnetool.Poller.Update.{Updated, update_channel_lem}

-- Channels 0 and 1 watch the descriptors 5 and 6; channel 0 was disabled.
abbrev first : Channel
unfolding new
first = record (new 5) { index = pos 0 }

abbrev second : Channel
unfolding new
second = record (new 6) { events = 3; index = pos 1 }

abbrev objects : ℕ → Channel
unfolding new
objects j = if j == 1 then second else if j == 0 then first else new 0

abbrev channels : ℕ → Option ℕ
channels f = if f == 6 then some 1 else if f == 5 then some 0 else none

abbrev two : Poller
two = record {
  pollfds =
      record { fd = negsuc 5; events = 0; revents = 0 }
      ∷ record { fd = pos 6; events = 3; revents = 0 }
      ∷ [];
  channels = channels;
  objects = objects;
}

two-owns : (f p : ℕ) → two.channels f ≡ some p → Owns two f p
unfolding new
two-owns f p e = elim (Bool-cases (f == 6)) [
  | inl six ↦ record {
    fd_eq = ground arith;
    at = 1;
    index_eq = ground arith;
    entry = record { fd = pos 6; events = 3; revents = 0 };
    found = refl;
    entry_fd = ground arith;
  }
  | inr other ↦ record {
    fd_eq = ground arith;
    at = 0;
    index_eq = ground arith;
    entry = record { fd = negsuc 5; events = 0; revents = 0 };
    found = refl;
    entry_fd = ground arith;
  }
]

two-owned : (i : ℕ) (e : PollFd) → get_elem? two.pollfds i ≡ some e → Owned two i e
unfolding new
two-owned zero e h = record { owner = 0; in_map = ground arith; index_eq = refl }
two-owned (suc zero) e h = record { owner = 1; in_map = ground arith; index_eq = refl }
two-owned (suc (suc i)) e h = absurd (cc)

two-IsValid : IsValid two
two-IsValid = record { owns = two-owns; owned = two-owned }

update_channel_lem_example : (s' : Poller) × (update_channel 1 two ≡ ok s') × Updated 1 two s'
unfolding new
update_channel_lem_example = update_channel_lem 1 two two-IsValid (inr refl)

-- Something is to be read from the second one.
abbrev readable : Poller
readable = record two {
  pollfds =
      record { fd = negsuc 5; events = 0; revents = 0 }
      ∷ record { fd = pos 6; events = 3; revents = 1 }
      ∷ [];
}

readable-Found : Found readable readable.pollfds (1 ∷ [])
unfolding new
readable-Found =
    quiet _ _ _ refl (
      active _ _ 1 _ refl (record { f = 6; fd_eq = refl; in_map = refl; object_fd = refl })
        all_seen)

fill_active_channels_lem_example :
    (t : Poller) × (fill_active_channels 1 readable ≡ ok (1 ∷ [], t))
    × Reported (1 ∷ []) readable.pollfds readable t
fill_active_channels_lem_example = fill_active_channels_lem readable readable-Found
