-- ===== src/Examples/Relations.antt =====
-- Runs of src/Matrix2D.hpp on a relation of three elements.
use rustmc.Prelude.{◌≡◌, ◌↔◌, true, false, [], ◌∷◌, arith}
use rustmc.Matrix2D.{Matrix2D, size, cell, trans_closure}
use rustmc.Matrix2D.Closure.{Reaches}
use rustmc.Matrix2D.Closure.Warren.{trans_closure-Reaches}

-- Two edges, from the first element to the second and from the second to the third.
abbrev chain : Matrix2D
chain = record {
  matrix = false ∷ true ∷ false ∷ false ∷ false ∷ true ∷ false ∷ false ∷ false ∷ [];
  elems =
      record { thread = 0; index = 1 }
      ∷ record { thread = 1; index = 1 }
      ∷ record { thread = 2; index = 1 }
      ∷ [];
}

trans_closure-Reaches_example : (cell (trans_closure chain) 0 2 ≡ true) ↔ Reaches chain 0 2
unfolding size
trans_closure-Reaches_example =
    trans_closure-Reaches chain 0 2 (omega arith) (omega arith) (omega arith)
