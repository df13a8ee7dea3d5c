-- ===== src/Poller/Remove.antt =====
-- `removeChannel` takes the entry out by moving the last one to its place.
use cppnetool.Prelude.{
  ℕ, ◌-◌, ◌<◌, ◌≡◌, ◌≢◌, sym, ap, ◌∙◌, inl, inr, List, none, some, false, arith, length, get_elem?,
  ◌==◌, Bool-cases, update, get_elem?-lt, if◌then◌else◌,
}
use cppnetool.Prelude.Int.{pos, negsuc}
use cppnetool.Channel.{Channel}
use cppnetool.Poller.{PollFd, Poller, magnitude}
use cppnetool.Poller.Invariant.{Owns, Owned, IsValid, Registered}

-- What a removal leaves: a well-formed poller without the channel, where every other registered
-- channel is still registered and its object differs at most in the index.
pub record Removed (p : ℕ) (s s' : Poller) : Type 0 where
  pub valid : IsValid s'
  pub gone : s'.channels (s.objects p).fd ≡ none
  pub shorter : length s'.pollfds ≡ length s.pollfds - 1
  pub others : (q : ℕ) → q ≢ p → Registered s q → Registered s' q
  pub events_same : (q : ℕ) → (s'.objects q).events ≡ (s.objects q).events

-- An array with the entry at `idx` gone and the last one in its place, and objects with the index
-- of the moved channel set.
pub record Moved (p : ℕ) (s : Poller) (idx : ℕ) (ys : List PollFd) (objects' : ℕ → Channel)
    : Type 0 where
  pub shorter : length ys ≡ length s.pollfds - 1
  pub ys-at :
      (i : ℕ)
      → i < length s.pollfds - 1
      → get_elem? ys i ≡ get_elem? s.pollfds (if i == idx then length s.pollfds - 1 else i)
  pub fd_same : (j : ℕ) → (objects' j).fd ≡ (s.objects j).fd
  pub events_same : (j : ℕ) → (objects' j).events ≡ (s.objects j).events
  pub index_moved :
      (f j k : ℕ)
      → s.channels f ≡ some j
      → j ≢ p
      → (s.objects j).index ≡ pos k
      → (objects' j).index ≡ pos (if k == length s.pollfds - 1 then idx else k)

abbrev pub without : ℕ → Poller → List PollFd → (ℕ → Channel) → Poller
without p s ys objects' = record {
  pollfds = ys;
  channels = update s.channels (s.objects p).fd none;
  objects = objects';
}

module _ (p : ℕ) (s : Poller) (v : IsValid s) (known : Registered s p) (idx : ℕ)
    (p_index : (s.objects p).index ≡ pos idx) (ys : List PollFd) (objects' : ℕ → Channel)
    (m : Moved p s idx ys objects') where
  open m use {shorter, ys-at, fd_same, index_moved}

  abbrev rest : Poller
  rest = without p s ys objects'

  own : Owns s (s.objects p).fd p
  own = v.owns (s.objects p).fd p known

  own_at : own.at ≡ idx
  own_at = ground (arith, own.index_eq, p_index)

  idx_in : idx < length s.pollfds
  idx_in = omega (arith, own_at, get_elem?-lt s.pollfds own.at own.found)

  not_idx : {f j : ℕ} (o : Owns s f j) → f ≢ (s.objects p).fd → o.at ≢ idx
  not_idx {f} o h e =
      let same : some own.entry ≡ some o.entry =
        sym own.found ∙ ap (get_elem? s.pollfds) (own_at ∙ sym e) ∙ o.found in
      h (cc (same, o.entry_fd, own.entry_fd))

  without-owns : (f j : ℕ) → rest.channels f ≡ some j → Owns rest f j
  without-owns f j e =
      let elsewhere : f ≢ (s.objects p).fd = λ h. ground (arith, e, h) in
      let before : s.channels f ≡ some j = ground (arith, e) in
      let o = v.owns f j before in
      let different : j ≢ p = λ h. elsewhere (sym o.fd_eq ∙ ap (λ k. (s.objects k).fd) h) in
      let far = not_idx o elsewhere in
      let bound = get_elem?-lt s.pollfds o.at o.found in
      elim (Bool-cases (o.at == length s.pollfds - 1)) [
        | inl last ↦ record {
          fd_eq = fd_same j ∙ o.fd_eq;
          at = idx;
          index_eq = index_moved f j o.at before different o.index_eq ∙ rw last;
          entry = o.entry;
          found = ground (arith, ys-at idx, idx_in, far, last, o.found);
          entry_fd = o.entry_fd;
        }
        | inr inner ↦ record {
          fd_eq = fd_same j ∙ o.fd_eq;
          at = o.at;
          index_eq = index_moved f j o.at before different o.index_eq ∙ rw inner;
          entry = o.entry;
          found = ground (arith, ys-at o.at, bound, far, inner, o.found);
          entry_fd = o.entry_fd;
        }
      ]

  without-owned : (i : ℕ) (e : PollFd) → get_elem? ys i ≡ some e → Owned rest i e
  without-owned i e h =
      let bound : i < length s.pollfds - 1 = omega (arith, get_elem?-lt ys i h, shorter) in
      let source : ℕ = if i == idx then length s.pollfds - 1 else i in
      let o = v.owned source e (sym (ys-at i bound) ∙ h) in
      let apart : source ≢ idx = ground (arith, bound, idx_in) in
      let different : o.owner ≢ p =
        λ q. apart (ground (arith, o.index_eq, p_index, ap (λ k. (s.objects k).index) q)) in
      let elsewhere : (magnitude e.fd == (s.objects p).fd) ≡ false =
        ground (arith, o.in_map, known, different) in
      record {
        owner = o.owner;
        in_map = rw elsewhere o.in_map;
        index_eq =
            index_moved (magnitude e.fd) o.owner source o.in_map different o.index_eq
            ∙ ap pos (ground (arith, bound));
      }

  pub without-Removed : Removed p s rest
  without-Removed = record {
    valid = record { owns = without-owns; owned = without-owned };
    gone = ground arith;
    shorter = shorter;
    others = λ q h r. rw (fd_same q) (rw (apart q h r) r);
    events_same = m.events_same;
  }
    where
      apart : (q : ℕ) → q ≢ p → Registered s q → ((s.objects q).fd == (s.objects p).fd) ≡ false
      apart q h r = ground (arith, h, r, known)

-- Two registered channels with one index are one channel.
pub one_owner :
    (s : Poller) (v : IsValid s) (f g j q k : ℕ)
    → s.channels f ≡ some j
    → s.channels g ≡ some q
    → (s.objects j).index ≡ pos k
    → (s.objects q).index ≡ pos k
    → j ≡ q
one_owner s v f g j q k hf hg hj hq =
    let a = v.owns f j hf in
    let b = v.owns g q hg in
    let at_same : a.at ≡ b.at = ground (arith, a.index_eq, b.index_eq, hj, hq) in
    let same : some a.entry ≡ some b.entry =
      sym a.found ∙ ap (get_elem? s.pollfds) at_same ∙ b.found in
    let fds : f ≡ g = cc (same, a.entry_fd, b.entry_fd) in cc (fds, hf, hg)

-- The channel was disabled, and its entry says so.
pub record Disabled (p : ℕ) (s : Poller) : Type 0 where
  pub at : ℕ
  pub index_eq : (s.objects p).index ≡ pos at
  pub entry : PollFd
  pub found : get_elem? s.pollfds at ≡ some entry
  pub ignored : entry.fd ≡ negsuc (s.objects p).fd
  pub asks_none : entry.events ≡ 0
  pub none_event : (s.objects p).events ≡ 0
