-- ===== src/Prelude/Slices.antt =====
-- Ranges of a byte array: the part between two indices, and a copy into it.
use Prim.Native.Nat.{ℕ, zero, suc, ◌+◌, ◌-◌, ◌≤◌}
use mathlib.Core.Path.{◌≡◌, refl, sym, ap, ◌∙◌}
use Prim.Native.Nat.add
use mathlib.Core.List.{List, [], ◌∷◌, ◌++◌}
use native.Mathlib.Omega.{arith}
use cppnetool.Prelude.Lists.{length, take, drop, length-take, length-drop, length-append}

module _ {ℓ} {A : Type ℓ} where
  -- The elements at the indices from `r` up to `w`, `w` excluded.
  abbrev pub slice : ℕ → ℕ → List A → List A
  slice r w xs = drop r (take w xs)

  -- `std::copy(ys, ys + n, xs + i)`
  abbrev pub write_at : List A → ℕ → List A → List A
  write_at xs i ys = take i xs ++ ys ++ drop (i + length ys) xs

  pub drop-append_le :
      (n : ℕ) (xs ys : List A) → n ≤ length xs → drop n (xs ++ ys) ≡ drop n xs ++ ys
  drop-append_le zero xs ys h = refl
  drop-append_le (suc n) [] ys h = absurd (omega arith)
  drop-append_le (suc n) (x ∷ xs) ys h = drop-append_le n xs ys (omega arith)

  pub take-append_eq : (xs ys : List A) (n : ℕ) → n ≡ length xs → take n (xs ++ ys) ≡ xs
  take-append_eq [] ys zero h = refl
  take-append_eq [] ys (suc n) h = absurd (omega arith)
  take-append_eq (x ∷ xs) ys zero h = absurd (omega arith)
  take-append_eq (x ∷ xs) ys (suc n) h = ap (λ l. x ∷ l) (take-append_eq xs ys n (omega arith))

  pub length-slice : (r w : ℕ) (xs : List A) → w ≤ length xs → length (slice r w xs) ≡ w - r
  length-slice r w xs h = omega (arith, length-drop r (take w xs), length-take w xs)

  pub take_all : (n : ℕ) (xs : List A) → length xs ≤ n → take n xs ≡ xs
  take_all zero [] h = refl
  take_all zero (x ∷ xs) h = absurd (omega arith)
  take_all (suc n) [] h = refl
  take_all (suc n) (x ∷ xs) h = ap (λ l. x ∷ l) (take_all n xs (omega arith))

  pub drop_all : (n : ℕ) (xs : List A) → length xs ≤ n → drop n xs ≡ []
  drop_all zero [] h = refl
  drop_all zero (x ∷ xs) h = absurd (omega arith)
  drop_all (suc n) [] h = refl
  drop_all (suc n) (x ∷ xs) h = drop_all n xs (omega arith)

  pub take-append_le : (n : ℕ) (xs ys : List A) → n ≤ length xs → take n (xs ++ ys) ≡ take n xs
  take-append_le zero xs ys h = refl
  take-append_le (suc n) [] ys h = absurd (omega arith)
  take-append_le (suc n) (x ∷ xs) ys h = ap (λ l. x ∷ l) (take-append_le n xs ys (omega arith))

  pub drop-drop : (m n : ℕ) (xs : List A) → drop m (drop n xs) ≡ drop (n + m) xs
  drop-drop m zero xs = rw add.zero
  drop-drop zero (suc n) [] = rw (add.suc, drop)
  drop-drop (suc m) (suc n) [] = rw (add.suc, drop)
  drop-drop m (suc n) (x ∷ xs) = rw (add.suc, drop) (drop-drop m n xs)

  pub drop-take : (r w : ℕ) (xs : List A) → r ≤ w → drop r (take w xs) ≡ take (w - r) (drop r xs)
  drop-take zero w xs h = ap (λ n. take n xs) (omega arith)
  drop-take (suc r) zero xs h = absurd (omega arith)
  drop-take (suc r) (suc w) [] h = sym (take_all (suc w - suc r) [] (omega arith))
  drop-take (suc r) (suc w) (x ∷ xs) h =
      drop-take r w xs (omega arith) ∙ ap (λ n. take n (drop r xs)) (omega arith)

  pub length-write_at :
      (xs ys : List A) (i : ℕ) → i + length ys ≤ length xs → length (write_at xs i ys) ≡ length xs
  length-write_at xs ys i h = omega (
    arith,
    length-append (take i xs ++ ys) (drop (i + length ys) xs),
    length-append (take i xs) ys,
    length-take i xs,
    length-drop (i + length ys) xs,
  )

  -- A copy to the end of a range lengthens the range by what is copied.
  pub slice-write_at :
      (r w : ℕ) (xs ys : List A)
      → r ≤ w
      → w ≤ length xs
      → slice r (w + length ys) (write_at xs w ys) ≡ slice r w xs ++ ys
  slice-write_at r w xs ys h k =
      let whole =
        take-append_eq (take w xs ++ ys) (drop (w + length ys) xs) (w + length ys)
          (omega (arith, length-append (take w xs) ys, length-take w xs)) in
      rw whole (drop-append_le r (take w xs) ys (omega (arith, length-take w xs)))

  pub slice_empty : (i : ℕ) (xs : List A) → slice i i xs ≡ []
  slice_empty i xs = drop_all i (take i xs) (omega (arith, length-take i xs))

  pub slice-write_at_self :
      (i : ℕ) (xs ys : List A) → i ≤ length xs → slice i (i + length ys) (write_at xs i ys) ≡ ys
  slice-write_at_self i xs ys h =
      slice-write_at i i xs ys (omega arith) h ∙ ap (λ l. l ++ ys) (slice_empty i xs)

  take-write_front :
      (w : ℕ) (xs ys : List A)
      → length ys ≤ w
      → take w (ys ++ drop (length ys) xs) ≡ ys ++ drop (length ys) (take w xs)
  take-write_front w xs [] h = refl
  take-write_front zero xs (y ∷ ys) h = absurd (omega arith)
  take-write_front (suc w) [] (y ∷ ys) h =
      ap (λ l. y ∷ l) (take_all w (ys ++ []) (omega (arith, length-append ys [])))
  take-write_front (suc w) (x ∷ xs) (y ∷ ys) h =
      ap (λ l. y ∷ l) (take-write_front w xs ys (omega arith))

  -- A copy that ends inside a range and starts it stands in front of what was there.
  pub slice-write_before :
      (i w : ℕ) (xs ys : List A)
      → i + length ys ≤ w
      → w ≤ length xs
      → slice i w (write_at xs i ys) ≡ ys ++ slice (i + length ys) w xs
  slice-write_before zero w xs ys h k =
      rw (add.zero (length ys)) (take-write_front w xs ys (omega arith))
  slice-write_before (suc i) zero xs ys h k = absurd (omega arith)
  slice-write_before (suc i) (suc w) [] ys h k = absurd (omega arith)
  slice-write_before (suc i) (suc w) (x ∷ xs) ys h k =
      rw (add.suc i (length ys)) (slice-write_before i w xs ys (omega arith) (omega arith))

  pub drop-append_eq : (n : ℕ) (xs ys : List A) → n ≡ length xs → drop n (xs ++ ys) ≡ ys
  drop-append_eq n xs ys h =
      drop-append_le n xs ys (omega (arith, h))
      ∙ ap (λ l. l ++ ys) (drop_all n xs (omega (arith, h)))
