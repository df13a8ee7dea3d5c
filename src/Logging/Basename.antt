-- ===== src/Logging/Basename.antt =====
-- The name of a file without its directory.
use cppnetool.Prelude.{
  ℕ, ◌≡◌, refl, ap, ◌⊎◌, inl, inr, Bool, false, ◌||◌, List, [], ◌∷◌, ◌++◌, Option, some, none, ◌==◌,
  arith, if◌then◌else◌, Bool-cases,
}
use cppnetool.Logging.{after_slash, basename, base_of}

abbrev pub has_slash : List ℕ → Bool
has_slash [] = false
has_slash (c ∷ cs) = c == 47 || has_slash cs

-- Nothing, or a path that ends in a '/'.
abbrev pub IsDirectory : List ℕ → Type 0
IsDirectory dir = (dir ≡ []) ⊎ ((d : List ℕ) × (dir ≡ d ++ 47 ∷ []))

data Parted (path : List ℕ) : Option (List ℕ) → Type 0 where
  whole : has_slash path ≡ false → Parted path none
  parted :
      (d rest : List ℕ)
      → path ≡ (d ++ 47 ∷ []) ++ rest
      → has_slash rest ≡ false
      → Parted path (some rest)

extend :
    (c : ℕ) (cs : List ℕ) (found : Option (List ℕ))
    → Parted cs found
    → Parted
        (c ∷ cs)
        (elim found [ some rest ↦ some rest | none ↦ if c == 47 then some cs else none ])
extend c cs (some rest) (parted d _ e h) = parted (c ∷ d) rest (ap (λ l. c ∷ l) e) h
extend c cs none (whole h) = elim (Bool-cases (c == 47)) [
  | inl slash ↦
      let is : c ≡ 47 = ground (arith, slash) in rw slash (parted [] cs (ap (λ x. x ∷ cs) is) h)
  | inr other ↦ rw other (whole (rw other h))
]

after_slash-Parted : (path : List ℕ) → Parted path (after_slash path)
unfolding after_slash
after_slash-Parted [] = whole refl
after_slash-Parted (c ∷ cs) = extend c cs (after_slash cs) (after_slash-Parted cs)

basename-Parted :
    (path : List ℕ) (found : Option (List ℕ))
    → Parted path found
    → (dir : List ℕ) × (path ≡ dir ++ base_of found path)
      × (has_slash (base_of found path) ≡ false)
      × IsDirectory dir
basename-Parted path none (whole h) = ([], refl, h, inl refl)
basename-Parted path (some rest) (parted d _ e h) = (d ++ 47 ∷ [], e, h, inr (d, refl))

-- The base name of any path has no '/' in it, and the path is a directory, which is empty or ends in
-- a '/', followed by it.
pub basename_lem :
    (path : List ℕ)
    → (dir : List ℕ) × (path ≡ dir ++ basename path)
      × (has_slash (basename path) ≡ false)
      × IsDirectory dir
unfolding basename
basename_lem path = basename-Parted path (after_slash path) (after_slash-Parted path)
