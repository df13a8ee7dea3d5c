-- ===== src/SortedSet.antt =====
-- `std::set` of pairs of numbers, as the timer queue uses it: a list in rising order, the first
-- component before the second.
pub mod Laws
use cppnetool.Prelude.{ℕ, Bool, true, false, ◌&&◌, ◌||◌, List, [], ◌∷◌, ltb, ◌==◌, if◌then◌else◌}

abbrev pub Pair : Type 0
Pair = ℕ × ℕ

-- `operator<` of `std::pair`
abbrev pub pair_ltb : Pair → Pair → Bool
pair_ltb x y = ltb x.0 y.0 || (x.0 == y.0 && ltb x.1 y.1)

abbrev pub pair_eqb : Pair → Pair → Bool
pair_eqb x y = x.0 == y.0 && x.1 == y.1

-- `find(x) != end()`
unfoldable pub mem : Pair → List Pair → Bool
mem x [] = false
mem x (y ∷ ys) = pair_eqb x y || mem x ys

-- `insert(x)`: where `x` is there already the set stays as it is.
unfoldable pub insert : Pair → List Pair → List Pair
insert x [] = x ∷ []
insert x (y ∷ ys) =
    if pair_ltb x y then x ∷ y ∷ ys else if pair_eqb x y then y ∷ ys else y ∷ insert x ys

-- `erase(x)`
unfoldable pub erase : Pair → List Pair → List Pair
erase x [] = []
erase x (y ∷ ys) = if pair_eqb x y then ys else y ∷ erase x ys

-- The elements before `lower_bound(x)`, and those from it on.
unfoldable pub before : Pair → List Pair → List Pair
before x [] = []
before x (y ∷ ys) = if pair_ltb y x then y ∷ before x ys else []

unfoldable pub from : Pair → List Pair → List Pair
from x [] = []
from x (y ∷ ys) = if pair_ltb y x then from x ys else y ∷ ys
