-- ===== src/Poller/Update.antt =====
-- `updateChannel` keeps the array and the map together, and none of its assertions fails.
use cppnetool.Prelude.{
  ℕ, ◌<◌, ◌≡◌, ◌≢◌, refl, sym, ap, ◌∙◌, ◌⊎◌, inl, inr, [], ◌∷◌, none, some, Option, true, ◌||◌,
  arith, length, get_elem?, set, ◌==◌, Bool-cases, get_elem?-lt, get_elem?-append_left,
  get_elem?-append_last, if◌then◌else◌, get_elem?-set_self, get_elem?-set_ne,
}
use cppnetool.Prelude.Int.{ℤ, pos, negsuc, eqb_ℤ}
use cppnetool.Prelude.Result.{ok}
use cppnetool.Channel.{Channel}
use cppnetool.Poller.{
  PollFd, Poller, to_short, magnitude, refresh, add_channel, change_channel, update_channel,
}
use cppnetool.Poller.Invariant.{Owns, Owned, IsValid, Registered}
use cppnetool.Poller.Added.{new_entry, added, add_channel-eq, added-IsValid}

-- The entry that a channel had.
abbrev pub entry_at : ℤ → Poller → Option PollFd
entry_at (negsuc n) s = none
entry_at (pos idx) s = get_elem? s.pollfds idx

abbrev pub entry_of : ℕ → Poller → Option PollFd
entry_of p s = entry_at (s.objects p).index s

-- The descriptor that an update leaves in the entry: that of the channel in a new entry, its negative
-- in one that asks for nothing, and in any other one what stood there.
abbrev pub asked_fd : Channel → Option PollFd → ℤ
asked_fd c none = pos c.fd
asked_fd c (some e) = if c.events == 0 then negsuc c.fd else e.fd

-- What an update leaves: a well-formed poller that has the channel registered, with the entry at
-- its index asking for its events, and every other channel, its place in the map and its entry as
-- they were.
pub record Updated (p : ℕ) (s s' : Poller) : Type 0 where
  pub valid : IsValid s'
  pub registered : Registered s' p
  pub at : ℕ
  pub index_eq : (s'.objects p).index ≡ pos at
  pub entry : PollFd
  pub found : get_elem? s'.pollfds at ≡ some entry
  pub asks : entry.events ≡ to_short (s.objects p).events
  pub cleared : entry.revents ≡ 0
  pub events_eq : (s'.objects p).events ≡ (s.objects p).events
  pub fd_eq : entry.fd ≡ asked_fd (s.objects p) (entry_of p s)
  pub others : (q : ℕ) → q ≢ p → s'.objects q ≡ s.objects q
  pub map_others : (f : ℕ) → f ≢ (s.objects p).fd → s'.channels f ≡ s.channels f
  pub entries_others :
      (i : ℕ) → i < length s.pollfds → i ≢ at → get_elem? s'.pollfds i ≡ get_elem? s.pollfds i

add_channel_lem :
    (p : ℕ) (s : Poller)
    → IsValid s
    → (s.objects p).index ≡ negsuc 0
    → s.channels (s.objects p).fd ≡ none
    → (s' : Poller) × (add_channel p s ≡ ok s') × Updated p s s'
add_channel_lem p s v new fresh = (
  added p s,
  add_channel-eq p s v fresh,
  record {
    valid = added-IsValid p s v fresh;
    registered = ground arith;
    at = length s.pollfds;
    index_eq = ground arith;
    entry = new_entry p s;
    found = get_elem?-append_last s.pollfds (new_entry p s) (length s.pollfds) refl;
    asks = refl;
    cleared = refl;
    events_eq = ground arith;
    fd_eq = ap (asked_fd (s.objects p)) (ap (λ i. entry_at i s) (sym new));
    others = λ q h. ground arith;
    map_others = λ f h. ground (arith, h);
    entries_others = λ i h apart. get_elem?-append_left s.pollfds (new_entry p s ∷ []) i h;
  },
)

is_either : (z : ℤ) (n : ℕ) → magnitude z ≡ n → (eqb_ℤ z (pos n) || eqb_ℤ z (negsuc n)) ≡ true
is_either (pos m) n h = ground arith
is_either (negsuc m) n h = ground arith

magnitude-refresh :
    (c : Channel) (e : PollFd) → magnitude e.fd ≡ c.fd → magnitude (refresh c e).fd ≡ c.fd
magnitude-refresh c e h = ground arith

module _ (p : ℕ) (s : Poller) (v : IsValid s) (known : Registered s p) where
  pub own : Owns s (s.objects p).fd p
  own = v.owns (s.objects p).fd p known

  abbrev pub changed : Poller
  changed = record s { pollfds = set s.pollfds own.at (refresh (s.objects p) own.entry) }

  pub in_range : own.at < length s.pollfds
  in_range = get_elem?-lt s.pollfds own.at own.found

  pub change_channel-eq : change_channel own.at p s ≡ ok changed
  unfolding change_channel
  change_channel-eq =
      ground
        (arith, known, in_range, own.found, is_either own.entry.fd (s.objects p).fd own.entry_fd)

  -- The entries of the new array.
  changed-at :
      (i : ℕ)
      → get_elem? changed.pollfds i
        ≡ (if i == own.at then some (refresh (s.objects p) own.entry) else get_elem? s.pollfds i)
  changed-at i = elim (Bool-cases (i == own.at)) [
    | inl here ↦ rw here (
        ap (get_elem? changed.pollfds) (ground arith)
        ∙ get_elem?-set_self s.pollfds own.at (refresh (s.objects p) own.entry) in_range)
    | inr there ↦
        rw there (get_elem?-set_ne s.pollfds (refresh (s.objects p) own.entry) (λ e. ground arith))
  ]

  refreshed :
      {f q : ℕ} (o : Owns s f q)
      → o.at ≡ own.at
      → magnitude (refresh (s.objects p) own.entry).fd ≡ f
  refreshed {f} o e =
      let same : some own.entry ≡ some o.entry =
        sym own.found ∙ ap (get_elem? s.pollfds) (sym e) ∙ o.found in
      let kept : magnitude own.entry.fd ≡ f = cc (same, o.entry_fd) in
      magnitude-refresh (s.objects p) own.entry own.entry_fd ∙ sym own.entry_fd ∙ kept

  changed-owns : (f q : ℕ) → changed.channels f ≡ some q → Owns changed f q
  changed-owns f q e =
      let o = v.owns f q e in
      elim (Bool-cases (o.at == own.at)) [
        | inl here ↦ record {
          fd_eq = o.fd_eq;
          at = o.at;
          index_eq = o.index_eq;
          entry = refresh (s.objects p) own.entry;
          found = rw (changed-at o.at, here);
          entry_fd = refreshed o (ground arith);
        }
        | inr there ↦ record {
          fd_eq = o.fd_eq;
          at = o.at;
          index_eq = o.index_eq;
          entry = o.entry;
          found = rw (changed-at o.at, there) o.found;
          entry_fd = o.entry_fd;
        }
      ]

  changed-owned : (i : ℕ) (e : PollFd) → get_elem? changed.pollfds i ≡ some e → Owned changed i e
  changed-owned i e h = elim (Bool-cases (i == own.at)) [
    | inl here ↦
        let same : some (refresh (s.objects p) own.entry) ≡ some e =
          ground (arith, changed-at i, h, here) in
        let whole = magnitude-refresh (s.objects p) own.entry own.entry_fd in
        record {
          owner = p;
          in_map = ap s.channels (cc (whole, same)) ∙ known;
          index_eq = own.index_eq ∙ ap pos (ground arith);
        }
    | inr there ↦
        let o = v.owned i e (ground (arith, changed-at i, h, there)) in
        record { owner = o.owner; in_map = o.in_map; index_eq = o.index_eq }
  ]

  refreshed_fd : (refresh (s.objects p) own.entry).fd ≡ asked_fd (s.objects p) (some own.entry)
  refreshed_fd = ground arith

  pub changed-Updated : Updated p s changed
  changed-Updated = record {
    valid = record { owns = changed-owns; owned = changed-owned };
    registered = known;
    at = own.at;
    index_eq = own.index_eq;
    entry = refresh (s.objects p) own.entry;
    found = get_elem?-set_self s.pollfds own.at (refresh (s.objects p) own.entry) in_range;
    asks = ground arith;
    cleared = ground arith;
    events_eq = refl;
    fd_eq =
        refreshed_fd
        ∙ ap (asked_fd (s.objects p)) (sym (ap (λ i. entry_at i s) own.index_eq ∙ own.found));
    others = λ q h. refl;
    map_others = λ f h. refl;
    entries_others = λ i h apart.
        get_elem?-set_ne s.pollfds (refresh (s.objects p) own.entry) (λ e. apart (sym e));
  }

-- `updateChannel` of a channel that is registered, or that is new and whose descriptor is not
-- taken, fails no assertion: the poller stays well formed, the channel is registered, the entry at
-- its index asks for its events, and every other channel with its place in the map and its entry is as
-- before. A new entry is one to be polled; that of a known channel is marked to be ignored where the
-- channel asks for nothing, and otherwise is polled or ignored as it was.
pub update_channel_lem :
    (p : ℕ) (s : Poller)
    → IsValid s
    → (((s.objects p).index ≡ negsuc 0) × (s.channels (s.objects p).fd ≡ none)) ⊎ Registered s p
    → (s' : Poller) × (update_channel p s ≡ ok s') × Updated p s s'
unfolding update_channel
update_channel_lem p s v (inl (new, fresh)) =
    let (s', e, u) = add_channel_lem p s v new fresh in (s', rw (new, update_channel) e, u)
update_channel_lem p s v (inr known) = (
  changed p s v known,
  rw ((own p s v known).index_eq, update_channel) (change_channel-eq p s v known),
  changed-Updated p s v known,
)
