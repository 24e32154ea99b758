-- ===== src/Matrix2D/Cells.antt =====
-- src/Matrix2D.hpp: the cells of the flat matrix, which a write changes one by one.
use rustmc.Prelude.{
  ℕ, zero, suc, ◌+◌, ◌*◌, ◌/◌, ◌%◌, ◌<◌, ◌≡◌, refl, Bool, false, ◌&&◌, List, [], ◌∷◌, length,
  get_or, set, ◌==◌, if◌then◌else◌, arith, ap, ◌∙◌, length-set,
}
use native.Mathlib.Nat.{
  mul-add-mod_self_right, mul-add-div_right, mod-eq_of_lt, div-eq_of_lt, mul-le-mul_right,
}
use rustmc.Matrix2D.{Matrix2D, size, compute_index, cell, put}

-- The matrix has a cell for each pair of elements.
abbrev pub IsSquare : Matrix2D → Type 0
IsSquare m = length m.matrix ≡ size m * size m

get_or-set :
    (xs : List Bool) (i j : ℕ) (v : Bool)
    → i < length xs
    → get_or (set xs i v) j false ≡ (if j == i then v else get_or xs j false)
get_or-set [] i j v h = absurd (omega arith)
get_or-set (x ∷ xs) zero zero v h = refl
get_or-set (x ∷ xs) zero (suc j) v h = ground arith
get_or-set (x ∷ xs) (suc i) zero v h = ground arith
get_or-set (x ∷ xs) (suc i) (suc j) v h = ground (arith, get_or-set xs i j v)

index-lt : (n i j : ℕ) → i < n → j < n → compute_index n i j < n * n
unfolding compute_index
index-lt n i j h k = omega (arith, mul-le-mul_right {m = suc i} {n = n} n h, suc_mul i n)
  where
    suc_mul : (a b : ℕ) → suc a * b ≡ a * b + b
    suc_mul a b = omega arith

row_of : (n i j : ℕ) → j < n → compute_index n i j / n ≡ i
unfolding compute_index
row_of n i j h = mul-add-div_right {m = n} (omega arith) i j ∙ omega (arith, div-eq_of_lt h)

column_of : (n i j : ℕ) → j < n → compute_index n i j % n ≡ j
unfolding compute_index
column_of n i j h = mul-add-mod_self_right i n j ∙ mod-eq_of_lt h

-- Two cells of the matrix have one index only if they are the same.
index_same :
    (n i j i' j' : ℕ)
    → j < n
    → j' < n
    → (compute_index n i' j' == compute_index n i j) ≡ (i' == i && j' == j)
index_same n i j i' j' h k = ground (
  arith,
  row_of n i j h,
  row_of n i' j' k,
  column_of n i j h,
  column_of n i' j' k,
  ap (λ (x : ℕ). x / n) {x = compute_index n i' j'} {y = compute_index n i j},
  ap (λ (x : ℕ). x % n) {x = compute_index n i' j'} {y = compute_index n i j},
  same_index,
)
  where
    same_index : i' ≡ i → j' ≡ j → compute_index n i' j' ≡ compute_index n i j
    same_index e f = ap (λ (x : ℕ). compute_index n x j') e ∙ ap (compute_index n i) f

-- A write inside the matrix changes its own cell.
pub cell-put :
    (m : Matrix2D) (i j : ℕ) (b : Bool) (i' j' : ℕ)
    → IsSquare m
    → i < size m
    → j < size m
    → j' < size m
    → cell (put m i j b) i' j' ≡ (if i' == i && j' == j then b else cell m i' j')
unfolding cell put size
cell-put m i j b i' j' q h k k' =
    get_or-set m.matrix (compute_index (size m) i j) (compute_index (size m) i' j') b
      (omega (arith, q, index-lt (size m) i j h k))
    ∙ ground (arith, index_same (size m) i j i' j' k k')

pub size-put : (m : Matrix2D) (i j : ℕ) (b : Bool) → size (put m i j b) ≡ size m
unfolding put size
size-put m i j b = refl

pub put-IsSquare : (m : Matrix2D) (i j : ℕ) (b : Bool) → IsSquare m → IsSquare (put m i j b)
unfolding put size
put-IsSquare m i j b q = length-set m.matrix (compute_index (size m) i j) b ∙ q
