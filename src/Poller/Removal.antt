-- ===== src/Poller/Removal.antt =====
-- `removeChannel` of a disabled channel, where its entry is the last one and where it is not.
use cppnetool.Prelude.{
  ℕ, ◌-◌, ◌<◌, ◌≡◌, ◌≢◌, sym, ap, ◌∙◌, inl, inr, List, some, false, arith, length, get_elem?, set,
  take, ◌==◌, Bool-cases, update, get_elem?-lt, get_elem?-take, if◌then◌else◌, get_elem?-set_self,
  get_elem?-set_ne, length-set, length-take,
}
use cppnetool.Prelude.Int.{pos}
use cppnetool.Prelude.Result.{ok}
use cppnetool.Channel.{Channel}
use cppnetool.Poller.{PollFd, Poller, magnitude, remove_at}
use cppnetool.Poller.Invariant.{Owned, IsValid, Registered}
use cppnetool.Poller.Remove.{Disabled, Removed, Moved, without, without-Removed, one_owner}

module _ (p : ℕ) (s : Poller) (v : IsValid s) (known : Registered s p) (d : Disabled p s)
    (last : PollFd) (at_last : get_elem? s.pollfds (length s.pollfds - 1) ≡ some last)
    (inner : d.at ≢ length s.pollfds - 1) where
  own : Owned s (length s.pollfds - 1) last
  own = v.owned (length s.pollfds - 1) last at_last

  bound : d.at < length s.pollfds - 1
  bound = omega (arith, get_elem?-lt s.pollfds d.at d.found, inner)

  different : own.owner ≢ p
  different q = inner (ground (arith, own.index_eq, d.index_eq, ap (λ k. (s.objects k).index) q))

  abbrev objects' : ℕ → Channel
  objects' = update s.objects own.owner (record (s.objects own.owner) { index = pos d.at })

  abbrev swapped : List PollFd
  swapped = set (set s.pollfds d.at last) (length s.pollfds - 1) d.entry

  length-swapped : length swapped ≡ length s.pollfds
  length-swapped =
      length-set (set s.pollfds d.at last) (length s.pollfds - 1) d.entry
      ∙ length-set s.pollfds d.at last

  swapped-at :
      (i : ℕ)
      → i < length s.pollfds - 1
      → get_elem? swapped i ≡ get_elem? s.pollfds (if i == d.at then length s.pollfds - 1 else i)
  swapped-at i h =
      get_elem?-set_ne (set s.pollfds d.at last) d.entry (λ e. omega (arith, h, e))
      ∙ elim (Bool-cases (i == d.at)) [
        | inl here ↦ rw here (
            ap (get_elem? (set s.pollfds d.at last)) (ground arith)
            ∙ get_elem?-set_self s.pollfds d.at last (omega (arith, bound))
            ∙ sym at_last)
        | inr there ↦ rw there (get_elem?-set_ne s.pollfds last (λ e. ground arith))
      ]

  abbrev popped : List PollFd
  popped = take (length swapped - 1) swapped

  moved : Moved p s d.at popped objects'
  moved = record {
    shorter = omega (arith, length-take (length swapped - 1) swapped, length-swapped);
    ys-at = λ i h.
        get_elem?-take (length swapped - 1) swapped i (omega (arith, h, length-swapped))
        ∙ swapped-at i h;
    fd_same = λ j. ground arith;
    events_same = λ j. ground arith;
    index_moved = λ f j k h n e. ground (
      arith,
      e,
      own.index_eq,
      one_owner s v f (magnitude last.fd) j own.owner (length s.pollfds - 1) h own.in_map,
    );
  }

  swap-eq : remove_at d.at p s ≡ ok (without p s popped objects')
  unfolding remove_at
  swap-eq =
      let apart : (magnitude last.fd == (s.objects p).fd) ≡ false =
        ground (arith, own.in_map, known, different) in
      let here : (d.at == length s.pollfds - 1) ≡ false = ground (arith, inner) in
      ground (
        arith, bound, here, at_last, apart, own.in_map, d.found, d.ignored, d.asks_none,
        d.none_event,
      )

  -- Another entry is the last one: its channel gets the index.
  pub remove_inner : (s' : Poller) × (remove_at d.at p s ≡ ok s') × Removed p s s'
  remove_inner = (
    without p s popped objects',
    swap-eq,
    without-Removed p s v known d.at d.index_eq popped objects' moved,
  )
