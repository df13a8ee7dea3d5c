-- ===== src/Proxy/Sessions.antt =====
-- The map of the sessions, and the walk over it.
use cppnetool.Prelude.{
  ℕ, ◌≤◌, ◌≡◌, ◌≢◌, ◌↔◌, refl, sym, ap, ◌∙◌, inl, inr, false, List, [], ◌∷◌, none, some, ◌==◌,
  arith, Bool-cases,
}
use cppnetool.Prelude.Result.{Result, ok, err, need, invalid_access, ◌>>=◌}
use cppnetool.Timestamp.{Timestamp}
use cppnetool.TcpServer.{TcpServer}
use cppnetool.Session.{Session, is_over}
use cppnetool.Proxy.{
  Proxy, find, put, remove, drop_session, erase_session, process_from, process_session,
}

pub find-put :
    (name : ℕ) (s : Session) (sessions : List (ℕ × Session))
    → find name (put name s sessions) ≡ some s
unfolding find put
find-put name s [] = ground arith
find-put name s ((key, old) ∷ rest) = elim (Bool-cases (key == name)) [
  | inl same ↦ ground (arith, same)
  | inr other ↦ ground (arith, other, find-put name s rest)
]

pub find-put_other :
    (name other : ℕ) (s : Session) (sessions : List (ℕ × Session))
    → other ≢ name
    → find other (put name s sessions) ≡ find other sessions
unfolding find put
find-put_other name other s [] h = ground (arith, h)
find-put_other name other s ((key, old) ∷ rest) h = elim (Bool-cases (key == name)) [
  | inl same ↦ ground (arith, same, h)
  | inr differs ↦ ground (arith, differs, find-put_other name other s rest h)
]

find-remove : (name : ℕ) (sessions : List (ℕ × Session)) → find name (remove name sessions) ≡ none
unfolding find remove
find-remove name [] = refl
find-remove name ((key, s) ∷ rest) = elim (Bool-cases (key == name)) [
  | inl same ↦ ground (arith, same, find-remove name rest)
  | inr differs ↦ ground (arith, differs, find-remove name rest)
]

-- No session has a time before `now`.
abbrev pub AllCurrent : Timestamp → List (ℕ × Session) → Type 0
AllCurrent now [] = Unit {0}
AllCurrent now ((key, s) ∷ rest) =
    ((now ≤ s.client_time) × (now ≤ s.server_time)) × AllCurrent now rest

-- Each key is one of the map.
abbrev AllIn : List (ℕ × Session) → List (ℕ × Session) → Type 0
AllIn [] sessions = Unit {0}
AllIn ((key, s) ∷ rest) sessions =
    ((found : Session) × (find key sessions ≡ some found)) × AllIn rest sessions

find-cons :
    (name key : ℕ) (s t : Session) (sessions : List (ℕ × Session))
    → find name sessions ≡ some t
    → (found : Session) × (find name ((key, s) ∷ sessions) ≡ some found)
unfolding find
find-cons name key s t sessions h = elim (Bool-cases (key == name)) [
  | inl same ↦ (s, rw same refl)
  | inr differs ↦ (t, rw differs h)
]

AllIn-cons :
    (key : ℕ) (s : Session) (es sessions : List (ℕ × Session))
    → AllIn es sessions
    → AllIn es ((key, s) ∷ sessions)
AllIn-cons key s [] sessions a = tt
AllIn-cons key s ((name, r) ∷ es) sessions ((found, h), a) =
    (find-cons name key s found sessions h, AllIn-cons key s es sessions a)

AllIn-self : (sessions : List (ℕ × Session)) → AllIn sessions sessions
unfolding find
AllIn-self [] = tt
AllIn-self ((key, s) ∷ rest) = ((s, ground arith), AllIn-cons key s rest rest (AllIn-self rest))

-- Whatever the destructor of the session does, its entry cannot be read any more.
erased-fault :
    (r : Result TcpServer) (key : ℕ) (x y : Proxy) (next : Proxy → Result Proxy)
    → ¬ (
        (do
          x' ← (do server ← r; ok (record x { server = server; sessions = remove key x.sessions }))
          entry ← need (find key x'.sessions)
          next x')
        ≡ ok y)
erased-fault (ok server) key x y next h =
    let gone : err invalid_access ≡ ok y =
      sym (
        ap
          (λ o. need o >>= λ entry.
            next (record x { server = server; sessions = remove key x.sessions }))
          (find-remove key x.sessions))
      ∙ h in
    absurd (cc (gone))
erased-fault (err other) key x y next h = absurd (cc (h))

is_over-current :
    (now : Timestamp) (s : Session)
    → is_over now s ≡ false
    → (now ≤ s.client_time) × (now ≤ s.server_time)
unfolding is_over
is_over-current now s h = (ground (arith, h), ground (arith, h))

current-is_over :
    (now : Timestamp) (s : Session)
    → now ≤ s.client_time
    → now ≤ s.server_time
    → is_over now s ≡ false
unfolding is_over
current-is_over now s h k = ground (arith, h, k)

process_from-AllCurrent :
    (now : Timestamp) (es : List (ℕ × Session)) (x y : Proxy)
    → AllIn es x.sessions
    → process_from now es x ≡ ok y
    → AllCurrent now es
unfolding process_from erase_session
process_from-AllCurrent now [] x y a h = tt
process_from-AllCurrent now ((key, s) ∷ es) x y ((found, in_map), a) h =
    elim (Bool-cases (is_over now s)) [
      | inl over ↦
          let erased : process_from now ((key, s) ∷ es) x ≡ (do
            x' ← erase_session key x
            entry ← need (find key x'.sessions)
            process_from now es x') =
            rw over refl in
          absurd (
            erased-fault (drop_session (find key x.sessions) x.server) key x y (process_from now es)
              (sym erased ∙ h))
      | inr kept ↦
          let on : process_from now ((key, s) ∷ es) x ≡ process_from now es x =
            rw (kept, in_map) refl in
          (is_over-current now s kept, process_from-AllCurrent now es x y a (sym on ∙ h))
    ]

AllCurrent-process_from :
    (now : Timestamp) (es : List (ℕ × Session)) (x : Proxy)
    → AllIn es x.sessions
    → AllCurrent now es
    → process_from now es x ≡ ok x
unfolding process_from
AllCurrent-process_from now [] x a c = refl
AllCurrent-process_from now ((key, s) ∷ es) x ((found, in_map), a) (c, cs) =
    let kept : is_over now s ≡ false = current-is_over now s c.0 c.1 in
    rw (kept, in_map) (AllCurrent-process_from now es x a cs)

-- `processSession_` comes to its end exactly where both times of every session are now or later, and
-- then nothing is changed: after it has erased a session it uses the iterator that this has made
-- invalid.
pub process_session_lem :
    (now : Timestamp) (x : Proxy)
    → ((process_session now x ≡ ok x) ↔ AllCurrent now x.sessions)
      × (((y : Proxy) × (process_session now x ≡ ok y)) ↔ AllCurrent now x.sessions)
unfolding process_session
process_session_lem now x =
    let here = AllIn-self x.sessions in
    (
      (
        λ h. process_from-AllCurrent now x.sessions x x here h,
        λ c. AllCurrent-process_from now x.sessions x here c,
      ),
      (
        λ (y, h). process_from-AllCurrent now x.sessions x y here h,
        λ c. (x, AllCurrent-process_from now x.sessions x here c),
      ),
    )
