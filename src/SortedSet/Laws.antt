-- ===== src/SortedSet/Laws.antt =====
-- The laws of the ordered set: membership, order and size under each operation.
use cppnetool.Prelude.{
  ◌+◌, ◌-◌, ◌<◌, ◌≡◌, refl, true, false, not, ◌&&◌, ◌||◌, List, [], ◌∷◌, ◌++◌, arith, if◌then◌else◌,
  length,
}
use cppnetool.SortedSet.{Pair, pair_ltb, pair_eqb, mem, insert, erase, before, from}

-- Every element comes after `x`.
abbrev pub Above : Pair → List Pair → Type 0
Above x [] = Unit {0}
Above x (y ∷ ys) = (pair_ltb x y ≡ true) × Above x ys

-- Strictly rising.
abbrev pub IsSorted : List Pair → Type 0
IsSorted [] = Unit {0}
IsSorted (y ∷ ys) = Above y ys × IsSorted ys

Above-trans : (x y : Pair) (ys : List Pair) → pair_ltb x y ≡ true → Above y ys → Above x ys
Above-trans x y [] h a = tt
Above-trans x y (z ∷ ys) h a = (ground (arith, a.0), Above-trans x y ys h a.1)

mem-Above : (x : Pair) (ys : List Pair) → Above x ys → mem x ys ≡ false
unfolding mem
mem-Above x [] a = refl
mem-Above x (y ∷ ys) a = ground (arith, a.0, mem-Above x ys a.1)

pub mem-insert : (y x : Pair) (xs : List Pair) → mem y (insert x xs) ≡ (pair_eqb y x || mem y xs)
unfolding mem insert
mem-insert y x [] = refl
mem-insert y x (z ∷ xs) = ground (arith, mem-insert y x xs)

Above-insert :
    (z x : Pair) (xs : List Pair) → pair_ltb z x ≡ true → Above z xs → Above z (insert x xs)
unfolding insert
Above-insert z x [] h a = (h, tt)
Above-insert z x (y ∷ xs) h a = ground (arith, h, a, Above-insert z x xs h a.1)

pub insert-IsSorted : (x : Pair) (xs : List Pair) → IsSorted xs → IsSorted (insert x xs)
unfolding insert
insert-IsSorted x [] s = (tt, tt)
insert-IsSorted x (y ∷ xs) s =
    ground (arith, s, insert-IsSorted x xs s.1, Above-trans x y xs, Above-insert y x xs)

pub length-insert :
    (x : Pair) (xs : List Pair)
    → IsSorted xs
    → length (insert x xs) ≡ (if mem x xs then length xs else length xs + 1)
unfolding insert mem
length-insert x [] s = refl
length-insert x (y ∷ xs) s =
    ground (arith, s, length-insert x xs s.1, mem-Above x xs, Above-trans x y xs)

Above-erase : (z x : Pair) (xs : List Pair) → Above z xs → Above z (erase x xs)
unfolding erase
Above-erase z x [] a = tt
Above-erase z x (y ∷ xs) a = ground (arith, a, Above-erase z x xs a.1)

pub erase-IsSorted : (x : Pair) (xs : List Pair) → IsSorted xs → IsSorted (erase x xs)
unfolding erase
erase-IsSorted x [] s = tt
erase-IsSorted x (y ∷ xs) s = ground (arith, s, erase-IsSorted x xs s.1, Above-erase y x xs s.0)

pub mem-erase :
    (y x : Pair) (xs : List Pair)
    → IsSorted xs
    → mem y (erase x xs) ≡ (mem y xs && not (pair_eqb y x))
unfolding mem erase
mem-erase y x [] s = refl
mem-erase y x (z ∷ xs) s =
    ground (arith, s, mem-erase y x xs s.1, mem-Above z xs s.0, mem-Above y xs)

pub length-pos : (x : Pair) (xs : List Pair) → mem x xs ≡ true → 0 < length xs
unfolding mem
length-pos x [] h = cc
length-pos x (y ∷ xs) h = omega arith

pub length-erase :
    (x : Pair) (xs : List Pair)
    → length (erase x xs) ≡ (if mem x xs then length xs - 1 else length xs)
unfolding mem erase
length-erase x [] = refl
length-erase x (y ∷ xs) = ground (arith, length-erase x xs, length-pos x xs)

pub before-from : (x : Pair) (xs : List Pair) → before x xs ++ from x xs ≡ xs
unfolding before from
before-from x [] = refl
before-from x (y ∷ xs) = ground (arith, before-from x xs)

-- The elements that come before `x`, and those that do not.
abbrev pub Below : Pair → List Pair → Type 0
Below x [] = Unit {0}
Below x (y ∷ ys) = (pair_ltb y x ≡ true) × Below x ys

abbrev pub NotBelow : Pair → List Pair → Type 0
NotBelow x [] = Unit {0}
NotBelow x (y ∷ ys) = (pair_ltb y x ≡ false) × NotBelow x ys

pub before-Below : (x : Pair) (xs : List Pair) → Below x (before x xs)
unfolding before
before-Below x [] = tt
before-Below x (y ∷ xs) = ground (arith, before-Below x xs)

Above-NotBelow : (x y : Pair) (xs : List Pair) → pair_ltb y x ≡ false → Above y xs → NotBelow x xs
Above-NotBelow x y [] h a = tt
Above-NotBelow x y (z ∷ xs) h a = (ground (arith, a.0), Above-NotBelow x y xs h a.1)

pub from-NotBelow : (x : Pair) (xs : List Pair) → IsSorted xs → NotBelow x (from x xs)
unfolding from
from-NotBelow x [] s = tt
from-NotBelow x (y ∷ xs) s = ground (arith, s, from-NotBelow x xs s.1, Above-NotBelow x y xs)

pub from-IsSorted : (x : Pair) (xs : List Pair) → IsSorted xs → IsSorted (from x xs)
unfolding from
from-IsSorted x [] s = tt
from-IsSorted x (y ∷ xs) s = ground (arith, s, from-IsSorted x xs s.1)

mem-NotBelow :
    (y x : Pair) (xs : List Pair) → NotBelow x xs → pair_ltb y x ≡ true → mem y xs ≡ false
unfolding mem
mem-NotBelow y x [] n h = refl
mem-NotBelow y x (z ∷ xs) n h = ground (arith, n, mem-NotBelow y x xs n.1)

pub mem-from :
    (y x : Pair) (xs : List Pair)
    → IsSorted xs
    → mem y (from x xs) ≡ (mem y xs && not (pair_ltb y x))
unfolding mem from
mem-from y x [] s = refl
mem-from y x (z ∷ xs) s =
    ground (arith, s, mem-from y x xs s.1, Above-NotBelow x z xs, mem-NotBelow y x xs)

pub mem-before :
    (y x : Pair) (xs : List Pair) → IsSorted xs → mem y (before x xs) ≡ (mem y xs && pair_ltb y x)
unfolding mem before
mem-before y x [] s = refl
mem-before y x (z ∷ xs) s =
    ground (arith, s, mem-before y x xs s.1, Above-NotBelow x z xs, mem-NotBelow y x xs)

Above-before : (y x : Pair) (xs : List Pair) → Above y xs → Above y (before x xs)
unfolding before
Above-before y x [] a = tt
Above-before y x (z ∷ xs) a = ground (arith, a, Above-before y x xs a.1)

pub before-IsSorted : (x : Pair) (xs : List Pair) → IsSorted xs → IsSorted (before x xs)
unfolding before
before-IsSorted x [] s = tt
before-IsSorted x (y ∷ xs) s = ground (arith, s, before-IsSorted x xs s.1, Above-before y x xs s.0)
