-- ===== src/TcpServer/Keys.antt =====
-- The keys of the map of connections lead to connections of their names.
use cppnetool.Prelude.{
  ℕ, ◌<◌, ◌≡◌, ◌≢◌, refl, sym, ap, ◌∙◌, inl, inr, Option, some, none, ◌==◌, update, Bool-cases,
  arith,
}
use cppnetool.Prelude.Result.{ok}
use cppnetool.TcpConnection.{TcpConnection, connect_established}
use cppnetool.TcpServer.{Entry, TcpServer, establish, register, erase}

-- A key of the map leads to a connection with this name, which was given before.
pub record Registered (s : TcpServer) (name p : ℕ) : Type 0 where
  pub given : name < s.next_conn_id
  pub entry : Entry
  pub object_eq : s.objects p ≡ some entry
  pub name_eq : entry.name ≡ name

pub record IsValid (s : TcpServer) : Type 0 where
  pub registered : (name p : ℕ) → s.connections name ≡ some (some p) → Registered s name p

-- Only `name` was changed.
abbrev pub SameExcept : ℕ → TcpServer → TcpServer → Type 0
SameExcept name s s' = (other : ℕ) → other ≢ name → s'.connections other ≡ s.connections other

pub update-ne : {A : Type 0} (f : ℕ → A) (k j : ℕ) (v : A) → j ≢ k → update f k v j ≡ f j
update-ne f k j v h = ground (arith, h)

pub update_self : {A : Type 0} (f : ℕ → A) (k : ℕ) (v : A) → update f k v k ≡ v
update_self f k v = ground arith

pub register-IsValid :
    (p : ℕ) (e : Entry) (s : TcpServer)
    → IsValid s
    → s.objects p ≡ none
    → e.name < s.next_conn_id
    → IsValid (register p e s)
unfolding register
register-IsValid p e s v free named = record { registered = new_key }
  where
    new_key :
        (name q : ℕ)
        → (register p e s).connections name ≡ some (some q)
        → Registered (register p e s) name q
    new_key name q h = elim (Bool-cases (name == e.name)) [
      | inl same ↦
          let here : some (some p) ≡ some (some q) = ground (arith, same, h) in
          let at : p ≡ q = cc (here) in
          record {
            given = ground (arith, same, named);
            entry = e;
            object_eq =
                ap (λ x. update s.objects p (some e) x) (sym at) ∙ update_self s.objects p (some e);
            name_eq = ground (arith, same);
          }
      | inr other ↦
          let before : s.connections name ≡ some (some q) = ground (arith, other, h) in
          let r = v.registered name q before in
          let apart : q ≢ p = λ same. absurd (cc (r.object_eq, free, ap s.objects same)) in
          record {
            given = omega (arith, r.given);
            entry = r.entry;
            object_eq = update-ne s.objects p q (some e) apart ∙ r.object_eq;
            name_eq = r.name_eq;
          }
    ]

pub erase-IsValid :
    (name p : ℕ) (s : TcpServer)
    → IsValid s
    → s.connections name ≡ some (some p)
    → IsValid (erase name p s)
unfolding erase
erase-IsValid name p s v found = record { registered = old_key }
  where
    mine : Registered s name p
    mine = v.registered name p found

    old_key :
        (other q : ℕ)
        → (erase name p s).connections other ≡ some (some q)
        → Registered (erase name p s) other q
    old_key other q h = elim (Bool-cases (other == name)) [
      | inl same ↦
          let nothing : Option (Option ℕ) = none in
          let gone : nothing ≡ some (some q) = ground (arith, same, h) in absurd (cc (gone))
      | inr differs ↦
          let before : s.connections other ≡ some (some q) = ground (arith, differs, h) in
          let r = v.registered other q before in
          let distinct : other ≢ name = ground (arith, differs) in
          let apart : q ≢ p = λ same.
            let one : some r.entry ≡ some mine.entry =
              sym r.object_eq ∙ (ap s.objects same ∙ mine.object_eq) in
            distinct (cc (one, r.name_eq, mine.name_eq)) in
          record {
            given = r.given;
            entry = r.entry;
            object_eq = update-ne s.objects p q none apart ∙ r.object_eq;
            name_eq = r.name_eq;
          }
    ]

pub replace-IsValid :
    (p : ℕ) (e e' : Entry) (s : TcpServer)
    → IsValid s
    → s.objects p ≡ some e
    → e'.name ≡ e.name
    → IsValid (record s { objects = update s.objects p (some e') })
replace-IsValid p e e' s v found named = record { registered = old_key }
  where
    old_key :
        (name q : ℕ)
        → s.connections name ≡ some (some q)
        → Registered (record s { objects = update s.objects p (some e') }) name q
    old_key name q h =
        let r = v.registered name q h in
        elim (Bool-cases (q == p)) [
          | inl same ↦
              let at : q ≡ p = ground (arith, same) in
              let one : some r.entry ≡ some e = sym r.object_eq ∙ (ap s.objects at ∙ found) in
              record {
                given = r.given;
                entry = e';
                object_eq = rw at (update_self s.objects p (some e'));
                name_eq = cc (one, r.name_eq, named);
              }
          | inr differs ↦ record {
            given = r.given;
            entry = r.entry;
            object_eq = update-ne s.objects p q (some e') (ground (arith, differs)) ∙ r.object_eq;
            name_eq = r.name_eq;
          }
        ]

pub establish-eq :
    (p : ℕ) (e : Entry) (tcp : TcpConnection) (s : TcpServer)
    → s.objects p ≡ some e
    → connect_established e.tcp ≡ ok tcp
    → establish p s ≡ ok (record s { objects = update s.objects p (some (record e { tcp = tcp })) })
unfolding establish
establish-eq p e tcp s h g = rw (h, g) refl
