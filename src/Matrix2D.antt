-- ===== src/Matrix2D.antt =====
-- src/Matrix2D.hpp and src/Matrix2D.tcc: a relation on a vector of elements as a matrix of bytes, row
-- after row, without __MATRIX_2D_INCREMENTAL__, which no file of the build defines.
-- A byte is a Boolean here: the code reads it as one, and writes true or a disjunction.
pub mod Cells
pub mod Closure
pub mod Edges
use rustmc.Prelude.{
  ℕ, zero, suc, ◌+◌, ◌-◌, ◌*◌, Bool, true, false, not, ◌&&◌, ◌||◌, List, [], ◌∷◌, Option, none,
  some, length, get_elem?, get_or, set, replicate, if◌then◌else◌, ◌>>=◌, ◌==◌,
}
use rustmc.Event.{Event, same}

pub record Matrix2D : Type 0 where
  pub matrix : List Bool
  pub elems : List Event

unfoldable pub size : Matrix2D → ℕ
size m = length m.elems

-- The constructor from a vector of elements: no edges.
pub of_elems : List Event → Matrix2D
of_elems es = record { matrix = replicate (length es * length es) false; elems = es }

-- `computeIndex`
pub compute_index : ℕ → ℕ → ℕ → ℕ
compute_index n i j = i * n + j

-- `operator()` on two indices, read and written.
pub cell : Matrix2D → ℕ → ℕ → Bool
unfolding size compute_index
cell m i j = get_or m.matrix (compute_index (size m) i j) false

pub put : Matrix2D → ℕ → ℕ → Bool → Matrix2D
unfolding size compute_index
put m i j b = record m { matrix = set m.matrix (compute_index (size m) i j) b }

-- `getIndex`; `none` is the abort on what is no element.
index_from : ℕ → Event → List Event → Option ℕ
index_from i e [] = none
index_from i e (x ∷ xs) = let rest = index_from (suc i) e xs in if same x e then some i else rest

pub get_index : Matrix2D → Event → Option ℕ
unfolding index_from
get_index m e = index_from 0 e m.elems

-- The elements at whose index, from `i` on, the test answers `true`.
select : (ℕ → Bool) → ℕ → List Event → List Event
select p i [] = []
select p i (x ∷ xs) = let rest = select p (suc i) xs in if p i then x ∷ rest else rest

pub get_in_edges : Matrix2D → Event → Option (List Event)
unfolding select
get_in_edges m e = get_index m e >>= λ k. some (select (λ i. cell m i k) 0 m.elems)

pub get_out_edges : Matrix2D → Event → Option (List Event)
unfolding select
get_out_edges m e = get_index m e >>= λ k. some (select (λ i. cell m k i) 0 m.elems)

-- The loop of `hasNoEdges` and that of `isIrreflexive`, as many rounds as there are indices from `i` on.
none_from : (ℕ → Bool) → ℕ → ℕ → Bool
none_from p zero i = true
none_from p (suc rounds) i = let rest = none_from p rounds (suc i) in if p i then false else rest

pub has_no_edges : Matrix2D → Event → Option Bool
unfolding none_from
has_no_edges m e =
    get_index m e >>= λ k. some (none_from (λ i. cell m i k || cell m k i) (size m) 0)

pub is_irreflexive : Matrix2D → Bool
unfolding none_from
is_irreflexive m = none_from (λ i. cell m i i) (size m) 0

-- `addEdgesFromTo`
add_edges_to : Matrix2D → Event → List Event → Option Matrix2D
add_edges_to m f [] = some m
add_edges_to m f (t ∷ ts) =
    get_index m f >>= λ i. get_index m t >>= λ j. add_edges_to (put m i j true) f ts

pub add_edges_from_to : Matrix2D → List Event → List Event → Option Matrix2D
unfolding add_edges_to
add_edges_from_to m [] ts = some m
add_edges_from_to m (f ∷ fs) ts = add_edges_to m f ts >>= λ m'. add_edges_from_to m' fs ts

-- The innermost loop of `transClosure`: row `k` is added to row `i`, from column `j` on.
add_row : ℕ → ℕ → ℕ → ℕ → Matrix2D → Matrix2D
add_row zero j i k m = m
add_row (suc rounds) j i k m = add_row rounds (suc j) i k (put m i j (cell m i j || cell m k j))

-- The loop over `k` for row `i`: so many rounds from `k` on.
close_row : ℕ → ℕ → ℕ → Matrix2D → Matrix2D
unfolding add_row
close_row zero k i m = m
close_row (suc rounds) k i m =
    close_row rounds (suc k) i (if cell m i k then add_row (size m) 0 i k m else m)

-- Rows i, i + 1, …, each by the rows before it.
pub close_below : ℕ → ℕ → Matrix2D → Matrix2D
unfolding close_row
close_below zero i m = m
close_below (suc rounds) i m = close_below rounds (suc i) (close_row i 0 i m)

-- Rows i, i + 1, …, each by the rows behind it.
pub close_above : ℕ → ℕ → Matrix2D → Matrix2D
unfolding close_row
close_above zero i m = m
close_above (suc rounds) i m = close_above rounds (suc i) (close_row (size m - suc i) (suc i) i m)

-- Warren's algorithm.
pub trans_closure : Matrix2D → Matrix2D
unfolding close_below close_above
trans_closure m = let below = close_below (size m - 1) 1 m in close_above (size below - 1) 0 below
