-- ===== src/VSet/Order.antt =====
-- What it means for the vector of src/VSet.hpp to be sorted and distinct, and membership.
use rustmc.Prelude.{
  ℕ, suc, ◌≤◌, ◌<◌, ◌≡◌, refl, Bool, true, false, ◌||◌, List, [], ◌∷◌, ◌==◌, arith,
}

-- Strictly increasing, with no element below `lo`.
abbrev pub From : ℕ → List ℕ → Type 0
From lo [] = Unit {0}
From lo (x ∷ xs) = (lo ≤ x) × From (suc x) xs

abbrev pub IsSorted : List ℕ → Type 0
IsSorted xs = From 0 xs

-- Membership, with no use of the order.
unfoldable pub elem : ℕ → List ℕ → Bool
elem y [] = false
elem y (x ∷ xs) = y == x || elem y xs

pub From-mono : {lo lo' : ℕ} (xs : List ℕ) → lo' ≤ lo → From lo xs → From lo' xs
From-mono [] h f = tt
From-mono (x ∷ xs) h f = (omega arith, f.1)

pub elem_below : (y lo : ℕ) (xs : List ℕ) → From lo xs → y < lo → elem y xs ≡ false
unfolding elem
elem_below y lo [] f h = refl
elem_below y lo (x ∷ xs) f h = ground (arith, elem_below y (suc x) xs f.1)

pub elem_lower : (y lo : ℕ) (xs : List ℕ) → From lo xs → elem y xs ≡ true → lo ≤ y
unfolding elem
elem_lower y lo [] f h = ground arith
elem_lower y lo (x ∷ xs) f h = ground (arith, elem_lower y (suc x) xs f.1)
