-- ===== src/VSet/Queries.antt =====
-- src/VSet.tcc: subsetOf, intersects and intersectWith against membership.
use rustmc.Prelude.{
  ℕ, suc, ◌≤◌, ◌<◌, ◌≡◌, refl, Bool, true, false, ◌&&◌, ◌||◌, [], ◌∷◌, arith, length,
}
use rustmc.VSet.Order.{From, IsSorted, elem, elem_below}
use rustmc.VSet.Single.{insert-IsSorted, elem-insert}
use rustmc.VSet.{VSet, insert, subset_loop, subset_of, intersects, intersect_loop, intersect_with}

-- Every element of the first is one of the second.
abbrev pub all_in : VSet → VSet → Bool
all_in [] t = true
all_in (x ∷ xs) t = elem x t && all_in xs t

-- Some element of the first is one of the second.
abbrev pub any_in : VSet → VSet → Bool
any_in [] t = false
any_in (x ∷ xs) t = elem x t || any_in xs t

all_in_below : (lo b : ℕ) (s t : VSet) → From lo s → b < lo → all_in s (b ∷ t) ≡ all_in s t
unfolding elem
all_in_below lo b [] t f h = refl
all_in_below lo b (x ∷ xs) t f h = ground (arith, all_in_below (suc x) b xs t f.1)

any_in_below : (lo b : ℕ) (s t : VSet) → From lo s → b < lo → any_in s (b ∷ t) ≡ any_in s t
unfolding elem
any_in_below lo b [] t f h = refl
any_in_below lo b (x ∷ xs) t f h = ground (arith, any_in_below (suc x) b xs t f.1)

-- Distinct elements of a sorted vector that all lie in another: no more than that has.
all_in-length :
    (l m : ℕ) (s t : VSet) → From l s → From m t → all_in s t ≡ true → length s ≤ length t
unfolding elem
all_in-length l m [] t f g h = omega arith
all_in-length l m (x ∷ xs) [] f g h = ground arith
all_in-length l m (x ∷ xs) (y ∷ ys) f g h = ground (
  arith,
  all_in-length (suc x) (suc y) xs ys f.1 g.1,
  all_in-length l (suc y) (x ∷ xs) ys f g.1,
  all_in_below (suc x) y xs ys f.1,
  elem_below x (suc y) ys g.1,
)

subset_loop-all_in : (l m : ℕ) (s t : VSet) → From l s → From m t → subset_loop s t ≡ all_in s t
unfolding subset_loop elem
subset_loop-all_in l m [] t f g = refl
subset_loop-all_in l m (x ∷ xs) [] f g = refl
subset_loop-all_in l m (x ∷ xs) (y ∷ ys) f g = ground (
  arith,
  subset_loop-all_in (suc x) (suc y) xs ys f.1 g.1,
  subset_loop-all_in l (suc y) (x ∷ xs) ys f g.1,
  all_in_below (suc x) y xs ys f.1,
  all_in-length l m (x ∷ xs) (y ∷ ys) f g,
  elem_below x (suc y) ys g.1,
)

-- On sorted vectors `subsetOf` answers whether each element of the first is a member of the second.
pub subset_of-all_in : (s t : VSet) → IsSorted s → IsSorted t → subset_of s t ≡ all_in s t
unfolding subset_of
subset_of-all_in s t f g = ground (arith, subset_loop-all_in 0 0 s t f g, all_in-length 0 0 s t f g)

any_in-nil : (s : VSet) → any_in s [] ≡ false
unfolding elem
any_in-nil [] = refl
any_in-nil (x ∷ xs) = any_in-nil xs

intersects-From : (l m : ℕ) (s t : VSet) → From l s → From m t → intersects s t ≡ any_in s t
unfolding intersects elem
intersects-From l m [] t f g = refl
intersects-From l m (x ∷ xs) [] f g = ground (arith, any_in-nil xs)
intersects-From l m (x ∷ xs) (y ∷ ys) f g = ground (
  arith,
  intersects-From (suc x) m xs (y ∷ ys) f.1 g,
  intersects-From l (suc y) (x ∷ xs) ys f g.1,
  any_in_below (suc x) y xs ys f.1,
  elem_below x (suc y) ys g.1,
)

-- On sorted vectors `intersects` answers whether some element of the first is a member of the second.
pub intersects-any_in : (s t : VSet) → IsSorted s → IsSorted t → intersects s t ≡ any_in s t
intersects-any_in s t f g = intersects-From 0 0 s t f g

intersect_loop-IsSorted : (r s t : VSet) → IsSorted r → IsSorted (intersect_loop r s t)
unfolding intersect_loop
intersect_loop-IsSorted r [] t f = f
intersect_loop-IsSorted r (x ∷ xs) [] f = f
intersect_loop-IsSorted r (x ∷ xs) (y ∷ ys) f = ground (
  arith,
  insert-IsSorted x r f,
  intersect_loop-IsSorted (insert r x).0 xs ys,
  intersect_loop-IsSorted r xs (y ∷ ys) f,
  intersect_loop-IsSorted r (x ∷ xs) ys f,
)

intersect_loop-elem :
    (v l m : ℕ) (r s t : VSet)
    → IsSorted r
    → From l s
    → From m t
    → elem v (intersect_loop r s t) ≡ (elem v r || (elem v s && elem v t))
unfolding intersect_loop elem
intersect_loop-elem v l m r [] t e f g = ground arith
intersect_loop-elem v l m r (x ∷ xs) [] e f g = ground arith
intersect_loop-elem v l m r (x ∷ xs) (y ∷ ys) e f g = ground (
  arith,
  insert-IsSorted x r e,
  elem-insert v x r e,
  intersect_loop-elem v (suc x) (suc y) (insert r x).0 xs ys,
  intersect_loop-elem v (suc x) m r xs (y ∷ ys) e f.1 g,
  intersect_loop-elem v l (suc y) r (x ∷ xs) ys e f g.1,
  elem_below v (suc x) xs f.1,
  elem_below v (suc y) ys g.1,
)

pub intersect_with-IsSorted : (s t : VSet) → IsSorted (intersect_with s t)
unfolding intersect_with
intersect_with-IsSorted s t = intersect_loop-IsSorted [] s t tt

-- On sorted vectors the members of `intersectWith` are those of both.
pub elem-intersect_with :
    (v : ℕ) (s t : VSet)
    → IsSorted s
    → IsSorted t
    → elem v (intersect_with s t) ≡ (elem v s && elem v t)
unfolding intersect_with elem
elem-intersect_with v s t f g = intersect_loop-elem v 0 0 [] s t tt f g
