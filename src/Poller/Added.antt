-- ===== src/Poller/Added.antt =====
-- The state that `updateChannel` makes of a poller with a new channel.
use cppnetool.Prelude.{
  ℕ, ◌-◌, ◌≡◌, refl, sym, ap, ◌∙◌, inl, inr, [], ◌∷◌, ◌++◌, none, some, false, arith, length,
  get_elem?, ◌==◌, Bool-cases, update, length-append, get_elem?-lt, get_elem?-append_left,
  get_elem?-append_last, ltb,
}
use cppnetool.Prelude.Int.{pos}
use cppnetool.Prelude.Result.{ok}
use cppnetool.Poller.{PollFd, Poller, to_short, magnitude, add_channel}
use cppnetool.Poller.Invariant.{Owns, Owned, IsValid}

abbrev pub new_entry : ℕ → Poller → PollFd
new_entry p s = record {
  fd = pos (s.objects p).fd;
  events = to_short (s.objects p).events;
  revents = 0;
}

-- The state that `add_channel` makes.
abbrev pub added : ℕ → Poller → Poller
added p s = record {
  pollfds = s.pollfds ++ new_entry p s ∷ [];
  channels = update s.channels (s.objects p).fd (some p);
  objects = update s.objects p (record (s.objects p) { index = pos (length s.pollfds) });
}

module _ (p : ℕ) (s : Poller) (v : IsValid s) (fresh : s.channels (s.objects p).fd ≡ none) where
  pub add_channel-eq : add_channel p s ≡ ok (added p s)
  unfolding add_channel
  add_channel-eq =
      rw (fresh, add_channel)
        (ap
          (λ n. ok (record (added p s) {
            objects = update s.objects p (record (s.objects p) { index = pos n });
          }))
          last)
    where
      last : length (s.pollfds ++ new_entry p s ∷ []) - 1 ≡ length s.pollfds
      last = omega (arith, length-append s.pollfds (new_entry p s ∷ []))

  -- A registered channel is another object than the new one.
  other : (f q : ℕ) → s.channels f ≡ some q → (q == p) ≡ false
  other f q e = ground (arith, (v.owns f q e).fd_eq)

  added-owns : (f q : ℕ) → (added p s).channels f ≡ some q → Owns (added p s) f q
  added-owns f q e = elim (Bool-cases (f == (s.objects p).fd)) [
    | inl here ↦ record {
      fd_eq = ground arith;
      at = length s.pollfds;
      index_eq = ground arith;
      entry = new_entry p s;
      found = get_elem?-append_last s.pollfds (new_entry p s) (length s.pollfds) refl;
      entry_fd = ground arith;
    }
    | inr there ↦
        let o = v.owns f q (ground arith) in
        let different = other f q (ground arith) in
        record {
          fd_eq = rw different o.fd_eq;
          at = o.at;
          index_eq = rw different o.index_eq;
          entry = o.entry;
          found =
              get_elem?-append_left s.pollfds (new_entry p s ∷ []) o.at
                (get_elem?-lt s.pollfds o.at o.found)
              ∙ o.found;
          entry_fd = o.entry_fd;
        }
  ]

  added-owned :
      (i : ℕ) (e : PollFd) → get_elem? (added p s).pollfds i ≡ some e → Owned (added p s) i e
  added-owned i e h = elim (Bool-cases (ltb i (length s.pollfds))) [
    | inl old ↦
        let o =
          v.owned i e
            (sym (get_elem?-append_left s.pollfds (new_entry p s ∷ []) i (ground arith)) ∙ h) in
        record {
          owner = o.owner;
          in_map = ground (arith, o.in_map, fresh);
          index_eq = rw (other (magnitude e.fd) o.owner o.in_map) o.index_eq;
        }
    | inr new ↦
        let bound = get_elem?-lt (added p s).pollfds i h in
        let at_end : i ≡ length s.pollfds =
          ground (arith, length-append s.pollfds (new_entry p s ∷ [])) in
        let same : some (new_entry p s) ≡ some e =
          sym (get_elem?-append_last s.pollfds (new_entry p s) i at_end) ∙ h in
        let its_fd : magnitude e.fd ≡ (s.objects p).fd = cc in
        record { owner = p; in_map = ground (arith, its_fd); index_eq = ground (arith, at_end) }
  ]

  pub added-IsValid : IsValid (added p s)
  added-IsValid = record { owns = added-owns; owned = added-owned }
