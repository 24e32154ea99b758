-- ===== src/VSet/Merge/Union.antt =====
-- src/VSet.tcc, insert(const VSet &): the merged vector is the sorted union, and the count is right.
use rustmc.Prelude.{
  ℕ, zero, suc, ◌+◌, ◌≤◌, ◌<◌, ◌≡◌, refl, false, ◌||◌, if◌then◌else◌, List, [], ◌∷◌, ◌++◌, arith,
  length, drop, sym,
}
use rustmc.VSet.Order.{From, elem, From-mono, elem_below}
use rustmc.VSet.{count_new}
use rustmc.VSet.Merge.{rev_onto, merge}

-- Strictly decreasing, with every element below `hi`.
abbrev pub Under : ℕ → List ℕ → Type 0
Under hi [] = Unit {0}
Under hi (x ∷ xs) = (x < hi) × Under x xs

pub Under-mono : {hi hi' : ℕ} (xs : List ℕ) → hi ≤ hi' → Under hi xs → Under hi' xs
Under-mono [] h u = tt
Under-mono (x ∷ xs) h u = (omega arith, u.1)

elem_above : (y hi : ℕ) (xs : List ℕ) → Under hi xs → hi ≤ y → elem y xs ≡ false
unfolding elem
elem_above y hi [] u h = refl
elem_above y hi (x ∷ xs) u h = ground (arith, elem_above y x xs u.1)

pub merge-Under : (hi : ℕ) (xs ys : List ℕ) → Under hi xs → Under hi ys → Under hi (merge xs ys)
unfolding merge
merge-Under hi [] ys u v = v
merge-Under hi (x ∷ xs) [] u v = u
merge-Under hi (x ∷ xs) (y ∷ ys) u v =
    ground
      (arith, merge-Under y (x ∷ xs) ys, merge-Under x xs ys u.1, merge-Under x xs (y ∷ ys) u.1)

pub elem-merge : (v : ℕ) (xs ys : List ℕ) → elem v (merge xs ys) ≡ (elem v xs || elem v ys)
unfolding merge elem
elem-merge v [] ys = refl
elem-merge v (x ∷ xs) [] = ground arith
elem-merge v (x ∷ xs) (y ∷ ys) =
    ground (arith, elem-merge v (x ∷ xs) ys, elem-merge v xs ys, elem-merge v xs (y ∷ ys))

pub elem-rev_onto : (v : ℕ) (xs ys : List ℕ) → elem v (rev_onto xs ys) ≡ (elem v xs || elem v ys)
unfolding rev_onto elem
elem-rev_onto v [] ys = refl
elem-rev_onto v (x ∷ xs) ys = ground (arith, elem-rev_onto v xs (x ∷ ys))

pub rev_onto-From : (hi : ℕ) (xs ys : List ℕ) → Under hi xs → From hi ys → From 0 (rev_onto xs ys)
unfolding rev_onto
rev_onto-From hi [] ys u f = From-mono {lo = hi} ys (omega arith) f
rev_onto-From hi (x ∷ xs) ys u f =
    rev_onto-From x xs (x ∷ ys) u.1 (omega arith, From-mono {lo = hi} ys u.0 f)

pub rev_onto-Under :
    (lo : ℕ) (xs ys : List ℕ) → From lo xs → Under lo ys → (hi : ℕ) × Under hi (rev_onto xs ys)
unfolding rev_onto
rev_onto-Under lo [] ys f u = (lo, u)
rev_onto-Under lo (x ∷ xs) ys f u =
    rev_onto-Under (suc x) xs (x ∷ ys) f.1 (omega arith, Under-mono {hi = lo} ys f.0 u)

-- How many elements of the second list the first lacks.
unfoldable pub fresh : List ℕ → List ℕ → ℕ
fresh xs [] = 0
fresh xs (y ∷ ys) = (if elem y xs then 0 else 1) + fresh xs ys

pub fresh-rev_onto : (xs ys zs : List ℕ) → fresh xs (rev_onto ys zs) ≡ fresh xs ys + fresh xs zs
unfolding fresh rev_onto
fresh-rev_onto xs [] zs = omega arith
fresh-rev_onto xs (y ∷ ys) zs = omega (arith, fresh-rev_onto xs ys (y ∷ zs))

pub fresh-same :
    (xs xs' ys : List ℕ) → ((v : ℕ) → elem v xs ≡ elem v xs') → fresh xs ys ≡ fresh xs' ys
unfolding fresh
fresh-same xs xs' [] h = refl
fresh-same xs xs' (y ∷ ys) h = rw (h y, fresh-same xs xs' ys h)

fresh-nil : (ys : List ℕ) → fresh [] ys ≡ length ys
unfolding fresh elem
fresh-nil [] = refl
fresh-nil (y ∷ ys) = omega (arith, fresh-nil ys)

-- An element that the second list has not does not count.
fresh_skip : (a : ℕ) (xs ys : List ℕ) → elem a ys ≡ false → fresh (a ∷ xs) ys ≡ fresh xs ys
unfolding fresh elem
fresh_skip a xs [] h = refl
fresh_skip a xs (y ∷ ys) h = ground (arith, fresh_skip a xs ys)

pub count_new-fresh :
    (l m : ℕ) (xs ys : List ℕ) → From l xs → From m ys → count_new xs ys ≡ fresh xs ys
unfolding count_new fresh elem
count_new-fresh l m [] ys f g = sym (fresh-nil ys)
count_new-fresh l m (x ∷ xs) [] f g = refl
count_new-fresh l m (x ∷ xs) (y ∷ ys) f g = ground (
  arith,
  count_new-fresh (suc x) m xs (y ∷ ys) f.1 g,
  count_new-fresh (suc x) (suc y) xs ys f.1 g.1,
  count_new-fresh l (suc y) (x ∷ xs) ys f g.1,
  fresh_skip x xs ys,
  elem_below x (suc y) ys g.1,
  elem_below y (suc x) xs f.1,
)

pub length-merge :
    (hi hi' : ℕ) (xs ys : List ℕ)
    → Under hi xs
    → Under hi' ys
    → length (merge xs ys) ≡ length xs + fresh xs ys
unfolding merge fresh elem
length-merge hi hi' [] ys u v = omega (arith, fresh-nil ys)
length-merge hi hi' (x ∷ xs) [] u v = omega arith
length-merge hi hi' (x ∷ xs) (y ∷ ys) u v = ground (
  arith,
  length-merge hi y (x ∷ xs) ys u v.1,
  length-merge x y xs ys u.1 v.1,
  length-merge x hi' xs (y ∷ ys) u.1 v,
  fresh_skip x xs ys,
  elem_above x y ys v.1,
  elem_above y x xs u.1,
)

pub rev_onto_twice : (xs ys zs : List ℕ) → rev_onto (rev_onto xs ys) zs ≡ rev_onto ys (xs ++ zs)
unfolding rev_onto
rev_onto_twice [] ys zs = refl
rev_onto_twice (x ∷ xs) ys zs = rev_onto_twice xs (x ∷ ys) zs

pub drop_all : (n : ℕ) (xs : List ℕ) → length xs ≤ n → drop n xs ≡ []
drop_all zero [] h = refl
drop_all zero (x ∷ xs) h = absurd (omega arith)
drop_all (suc n) [] h = refl
drop_all (suc n) (x ∷ xs) h = drop_all n xs (omega arith)
