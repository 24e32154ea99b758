-- ===== src/Matrix2D/Closure/Warren.antt =====
-- src/Matrix2D.tcc: transClosure, the two passes together.
use rustmc.Prelude.{
  ℕ, suc, ◌+◌, ◌-◌, ◌<◌, ◌≡◌, ◌↔◌, refl, true, ◌==◌, inl, inr, Bool-cases, arith, ap,
}
use rustmc.Matrix2D.{Matrix2D, size, cell, close_below, trans_closure}
use rustmc.Matrix2D.Cells.{IsSquare}
use rustmc.Matrix2D.Closure.{
  path_below, path_below_le, Reaches, Reaches-of_path_below, path_below-Reaches,
}
use rustmc.Matrix2D.Closure.Rows.{
  HasPaths, IsStage, below, above, close_below-IsStage, close_above-IsStage, path_below_self,
}

module _ (m : Matrix2D) (square : IsSquare m) where
  start-IsStage : IsStage m (below m 1) m
  unfolding path_below
  start-IsStage = record {
    good = record {
      same_size = refl;
      square = square;
      within = λ i j l s c. path_below_le m 0 (size m) i j (omega arith) c;
    };
    paths = λ i l j s q.
        ground (arith, q, ap (λ (x : ℕ). path_below m x i j) {x = below m 1 i} {y = 0});
  }

  -- Every row is closed over all elements after the two passes.
  closed-IsStage :
      0 < size m
      → IsStage m (above m (0 + (size (close_below (size m - 1) 1 m) - 1))) (trans_closure m)
  unfolding trans_closure
  closed-IsStage h =
      let first = close_below-IsStage m (size m - 1) 1 m (omega arith) start-IsStage in
      let d = close_below (size m - 1) 1 m in
      let count : size d - 1 ≡ size m - 1 = omega (arith, first.good.same_size) in
      close_above-IsStage m (size d - 1) 0 d (omega (arith, count)) (record {
        good = first.good;
        paths = λ i l j s q. first.paths i l j s (
            ground (
              arith,
              q,
              ap (λ (x : ℕ). path_below m x i j) {x = above m 0 i} {y = i},
              ap (λ (x : ℕ). path_below m x i j) {x = below m (1 + (size m - 1)) i} {y = i},
            ));
      })

  -- The last row is closed below itself, and so wholly.
  closed_row :
      (d : Matrix2D) (last : ℕ)
      → suc last ≡ size m
      → IsStage m (above m last) d
      → (i : ℕ) → i < size m
      → HasPaths m d i (size m)
  closed_row d last e g i l j s q = elim (Bool-cases (i == last)) [
    | inl h ↦ g.paths i l j s (
        ground (
          arith,
          q,
          e,
          path_below_self m i j,
          ap (λ (x : ℕ). path_below m x i j) {x = size m} {y = suc i},
          ap (λ (x : ℕ). path_below m x i j) {x = above m last i} {y = i},
        ))
    | inr n ↦ g.paths i l j s (
        ground
          (arith, q, e, n, l, ap (λ (x : ℕ). path_below m x i j) {x = above m last i} {y = size m}))
  ]

-- On a matrix with a cell for each pair of its elements, the closure has an edge exactly where a path
-- of one edge or more leads in the matrix.
pub trans_closure-Reaches :
    (m : Matrix2D) (i j : ℕ)
    → IsSquare m
    → i < size m
    → j < size m
    → (cell (trans_closure m) i j ≡ true) ↔ Reaches m i j
trans_closure-Reaches m i j square l s =
    let g = closed-IsStage m square (omega arith) in
    let first = close_below-IsStage m (size m - 1) 1 m (omega arith) (start-IsStage m square) in
    (
      λ c. Reaches-of_path_below m (size m) i j (omega arith) (g.good.within i j l s c),
      λ p.
          closed_row m square (trans_closure m) _ (omega (arith, first.good.same_size)) g i l j s
            (path_below-Reaches p),
    )
