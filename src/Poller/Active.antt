-- ===== src/Poller/Active.antt =====
-- `fillActiveChannels` of Poller.cc: which channels it finds.
use cppnetool.Prelude.{
  ℕ, zero, suc, ◌≤◌, ◌≡◌, refl, sym, ap, ◌∙◌, inl, inr, true, false, List, [], ◌∷◌, some, ltb, ◌==◌,
  if◌then◌else◌, update, Bool-cases, arith,
}
use cppnetool.Prelude.Int.{pos}
use cppnetool.Prelude.Result.{ok}
use cppnetool.Channel.{Channel}
use cppnetool.Poller.{PollFd, Poller, report, fill_from, fill_active_channels}

-- The channel of an entry.
pub record Known (s : Poller) (e : PollFd) (p : ℕ) : Type 0 where
  pub f : ℕ
  pub fd_eq : e.fd ≡ pos f
  pub in_map : s.channels f ≡ some p
  pub object_fd : (s.objects p).fd ≡ f

-- The channels of the entries that `poll` reported something on, in the order of the entries.
pub data Found (s : Poller) : List PollFd → List ℕ → Type 0 where
  all_seen : Found s [] []
  quiet :
      (e : PollFd) (es : List PollFd) (ps : List ℕ)
      → ltb 0 e.revents ≡ false
      → Found s es ps
      → Found s (e ∷ es) ps
  active :
      (e : PollFd) (es : List PollFd) (p : ℕ) (ps : List ℕ)
      → ltb 0 e.revents ≡ true
      → Known s e p
      → Found s es ps
      → Found s (e ∷ es) (p ∷ ps)

-- What `revents_` of the channel at `q` is after the search: what `poll` reported for the last entry
-- that is of this channel, or what it was.
unfoldable pub last_seen : ℕ → List PollFd → List ℕ → ℕ → ℕ
last_seen q [] ps r = r
last_seen q (e ∷ es) [] r = r
last_seen q (e ∷ es) (p ∷ ps) r =
    let quiet = last_seen q es (p ∷ ps) r in
    let reported = last_seen q es ps (if q == p then e.revents else r) in
    if ltb 0 e.revents then reported else quiet

last_seen-nil : (q : ℕ) (es : List PollFd) (r : ℕ) → last_seen q es [] r ≡ r
unfolding last_seen
last_seen-nil q [] r = refl
last_seen-nil q (e ∷ es) r = refl

last_seen-quiet :
    (q : ℕ) (e : PollFd) (es : List PollFd) (ps : List ℕ) (r : ℕ)
    → ltb 0 e.revents ≡ false
    → last_seen q es ps r ≡ last_seen q (e ∷ es) ps r
unfolding last_seen
last_seen-quiet q e es [] r h = last_seen-nil q es r
last_seen-quiet q e es (p ∷ ps) r h = rw h refl

-- What the search changes: `revents_` of the channels found, and nothing else.
pub record Reported (ps : List ℕ) (es : List PollFd) (s t : Poller) : Type 0 where
  pub channels_eq : t.channels ≡ s.channels
  pub pollfds_eq : t.pollfds ≡ s.pollfds
  pub objects_eq :
      (q : ℕ)
      → t.objects q ≡ record (s.objects q) { revents = last_seen q es ps (s.objects q).revents }

abbrev seen : ℕ → ℕ → Poller → Poller
seen p revents s = record s {
  objects = update s.objects p (record (s.objects p) { revents = revents });
}

same_or_not : (q p : ℕ) → (q == p) ≡ true → q ≡ p
same_or_not q p h = ground (arith, h)

seen-fd :
    (p revents : ℕ) (s : Poller) (q : ℕ) → ((seen p revents s).objects q).fd ≡ (s.objects q).fd
seen-fd p revents s q = elim (Bool-cases (q == p)) [
  | inl same ↦ rw same (ap (λ x. (s.objects x).fd) (sym (same_or_not q p same)))
  | inr differs ↦ rw differs refl
]

seen-objects :
    (p revents : ℕ) (s : Poller) (q : ℕ)
    → (seen p revents s).objects q
      ≡ record (s.objects q) { revents = if q == p then revents else (s.objects q).revents }
seen-objects p revents s q = elim (Bool-cases (q == p)) [
  | inl same ↦
      rw same (ap (λ x. record (s.objects x) { revents = revents }) (sym (same_or_not q p same)))
  | inr differs ↦ rw differs refl
]

Found-seen :
    (p revents : ℕ) {s : Poller} {es : List PollFd} {ps : List ℕ}
    → Found s es ps
    → Found (seen p revents s) es ps
Found-seen p revents all_seen = all_seen
Found-seen p revents (quiet e es ps h k) = quiet e es ps h (Found-seen p revents k)
Found-seen p revents {s} (active e es q ps h n k) =
    active e es q ps h
      (record {
        f = n.f;
        fd_eq = n.fd_eq;
        in_map = n.in_map;
        object_fd = seen-fd p revents s q ∙ n.object_fd;
      })
      (Found-seen p revents k)

abbrev pub count : List ℕ → ℕ
count [] = 0
count (p ∷ ps) = suc (count ps)

eq_self : (f : ℕ) → (f == f) ≡ true
eq_self f = ground arith

report-eq :
    (s : Poller) (e : PollFd) (p : ℕ) → Known s e p → report e s ≡ ok (p, seen p e.revents s)
unfolding report
report-eq s e p k = rw (k.fd_eq, k.in_map, k.object_fd, eq_self k.f) refl

same-Reported : (s : Poller) (es : List PollFd) → Reported [] es s s
same-Reported s es = record {
  channels_eq = refl;
  pollfds_eq = refl;
  objects_eq = λ q.
      ap (λ r. record (s.objects q) { revents = r })
        (sym (last_seen-nil q es (s.objects q).revents));
}

quiet-Reported :
    (e : PollFd) {es : List PollFd} {ps : List ℕ} {s t : Poller}
    → ltb 0 e.revents ≡ false
    → Reported ps es s t
    → Reported ps (e ∷ es) s t
quiet-Reported e {es} {ps} {s} {t} h o = record {
  channels_eq = o.channels_eq;
  pollfds_eq = o.pollfds_eq;
  objects_eq = λ q.
      o.objects_eq q
      ∙ ap (λ r. record (s.objects q) { revents = r })
          (last_seen-quiet q e es ps (s.objects q).revents h);
}

active-Reported :
    (e : PollFd) (p : ℕ) {es : List PollFd} {ps : List ℕ} {s t : Poller}
    → ltb 0 e.revents ≡ true
    → Reported ps es (seen p e.revents s) t
    → Reported (p ∷ ps) (e ∷ es) s t
unfolding last_seen
active-Reported e p {es} {ps} {s} {t} h o = record {
  channels_eq = o.channels_eq;
  pollfds_eq = o.pollfds_eq;
  objects_eq = λ q.
      let old = (s.objects q).revents in
      let taken : last_seen q es ps (if q == p then e.revents else old)
          ≡ last_seen q (e ∷ es) (p ∷ ps) old =
        rw h refl in
      o.objects_eq q
      ∙ ap {A = Channel} (λ c. record c { revents = last_seen q es ps c.revents })
          (seen-objects p e.revents s q)
      ∙ ap (λ r. record (s.objects q) { revents = r }) taken;
}

fill_from_lem :
    (n : ℕ) (s : Poller) {es : List PollFd} {ps : List ℕ}
    → Found s es ps
    → count ps ≤ n
    → (t : Poller) × (fill_from n es s ≡ ok (ps, t)) × Reported ps es s t
unfolding fill_from
fill_from_lem zero s all_seen h = (s, refl, same-Reported s [])
fill_from_lem (suc n) s all_seen h = (s, refl, same-Reported s [])
fill_from_lem zero s (quiet e es [] q k) h = (s, refl, same-Reported s (e ∷ es))
fill_from_lem zero s (quiet e es (p ∷ ps) q k) h = absurd (omega (arith, h))
fill_from_lem (suc n) s (quiet e es ps q k) h =
    let (t, f, o) = fill_from_lem (suc n) s k h in (t, rw (q, fill_from) f, quiet-Reported e q o)
fill_from_lem zero s (active e es p ps a w k) h = absurd (omega (arith, h))
fill_from_lem (suc n) s (active e es p ps a w k) h =
    let (t, f, o) =
      fill_from_lem n (seen p e.revents s) (Found-seen p e.revents k) (omega (arith, h)) in
    (t, rw (a, fill_from, report-eq s e p w, f) refl, active-Reported e p a o)

-- Where each entry that something is reported on belongs to a channel, and `poll` returns their
-- number, `fillActiveChannels` succeeds and finds exactly these channels, in the order of the
-- entries. Each of them has what was reported for it, and the array, the map, every other channel and
-- everything else of these channels are as before.
pub fill_active_channels_lem :
    (s : Poller) {ps : List ℕ}
    → Found s s.pollfds ps
    → (t : Poller) × (fill_active_channels (count ps) s ≡ ok (ps, t)) × Reported ps s.pollfds s t
unfolding fill_active_channels
fill_active_channels_lem s {ps} k = fill_from_lem (count ps) s k (omega arith)
