-- ===== src/VSet/Range.antt =====
-- src/VSet.tcc: insertion of a range, where an element above the maximum is appended.
use rustmc.Prelude.{ℕ, suc, ◌≤◌, ◌<◌, ◌≡◌, refl, ◌||◌, List, [], ◌∷◌, ◌++◌, arith}
use rustmc.VSet.Order.{From, IsSorted, elem}
use rustmc.VSet.Single.{insert-IsSorted, elem-insert}
use rustmc.VSet.{VSet, insert, insert_at, last_or, insert_max, insert_range}

last_or-le : (y : ℕ) (ys : List ℕ) → From (suc y) ys → y ≤ last_or y ys
unfolding last_or
last_or-le y [] f = omega arith
last_or-le y (z ∷ zs) f = omega (arith, last_or-le z zs f.1)

-- Past the maximum, insertion is an append.
append_max :
    (el x : ℕ) (xs : List ℕ)
    → From (suc x) xs
    → last_or x xs < el
    → insert_at (x ∷ xs) el ≡ x ∷ xs ++ el ∷ []
unfolding insert_at last_or
append_max el x [] f h = ground arith
append_max el x (y ∷ ys) f h = ground (arith, append_max el y ys f.1, last_or-le y ys f.1)

insert_max-insert : (s : VSet) (el : ℕ) → IsSorted s → insert_max s el ≡ (insert s el).0
unfolding insert_max insert insert_at
insert_max-insert [] el f = refl
insert_max-insert (x ∷ xs) el f = ground (arith, append_max el x xs f.1)

pub insert_range-IsSorted : (s : VSet) (xs : List ℕ) → IsSorted s → IsSorted (insert_range s xs)
unfolding insert_range
insert_range-IsSorted s [] f = f
insert_range-IsSorted s (x ∷ xs) f =
    rw (insert_max-insert s x f) (insert_range-IsSorted (insert s x).0 xs (insert-IsSorted x s f))

-- On a sorted vector, after the insertion of a range the members are those before and those of the range.
pub elem-insert_range :
    (v : ℕ) (s : VSet) (xs : List ℕ)
    → IsSorted s
    → elem v (insert_range s xs) ≡ (elem v s || elem v xs)
unfolding insert_range elem
elem-insert_range v s [] f = ground arith
elem-insert_range v s (x ∷ xs) f = rw (insert_max-insert s x f) (
    ground
      (arith, elem-insert_range v (insert s x).0 xs (insert-IsSorted x s f), elem-insert v x s f))
