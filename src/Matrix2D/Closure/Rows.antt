-- ===== src/Matrix2D/Closure/Rows.antt =====
-- src/Matrix2D.tcc: what the loops of transClosure do to the rows.
use rustmc.Prelude.{
  ℕ, zero, suc, ◌+◌, ◌-◌, ◌≤◌, ◌<◌, ◌≡◌, ◌≢◌, ◌⊎◌, refl, true, ◌&&◌, ◌||◌, ltb, leb, ◌==◌, inl, inr,
  Bool-cases, if◌then◌else◌, arith, ap, ◌∙◌, sym, subst,
}
use rustmc.Matrix2D.{Matrix2D, size, cell, put, add_row, close_row, close_below, close_above}
use rustmc.Matrix2D.Cells.{IsSquare, cell-put, size-put, put-IsSquare}
use rustmc.Matrix2D.Closure.{path_below, path_below_trans}

size-add_row : (rounds j i k : ℕ) (d : Matrix2D) → size (add_row rounds j i k d) ≡ size d
unfolding add_row
size-add_row zero j i k d = refl
size-add_row (suc rounds) j i k d =
    size-add_row rounds (suc j) i k (put d i j (cell d i j || cell d k j))
    ∙ size-put d i j (cell d i j || cell d k j)

add_row-IsSquare :
    (rounds j i k : ℕ) (d : Matrix2D) → IsSquare d → IsSquare (add_row rounds j i k d)
unfolding add_row
add_row-IsSquare zero j i k d q = q
add_row-IsSquare (suc rounds) j i k d q =
    add_row-IsSquare rounds (suc j) i k (put d i j (cell d i j || cell d k j))
      (put-IsSquare d i j (cell d i j || cell d k j) q)

cell-add_row :
    (rounds j i k : ℕ) (d : Matrix2D) (i' j' : ℕ)
    → IsSquare d
    → i < size d
    → i ≢ k
    → j + rounds ≤ size d
    → j' < size d
    → cell (add_row rounds j i k d) i' j'
      ≡ (cell d i' j' || (i' == i && (leb j j' && (ltb j' (j + rounds) && cell d k j'))))
unfolding add_row
cell-add_row zero j i k d i' j' q h n r l = ground arith
cell-add_row (suc rounds) j i k d i' j' q h n r l =
    let b = cell d i j || cell d k j in
    ground (
      arith,
      cell-add_row rounds (suc j) i k (put d i j b) i' j' (put-IsSquare d i j b q)
          (omega (arith, size-put d i j b)) n (omega (arith, size-put d i j b))
          (omega (arith, size-put d i j b)),
      cell-put d i j b i' j' q h (omega arith) l,
      cell-put d i j b k j' q h (omega arith) l,
      ap (λ (x : ℕ). cell d x j') {x = i'} {y = i},
      ap (λ (x : ℕ). cell d i x) {x = j'} {y = j},
      ap (λ (x : ℕ). cell d k x) {x = j'} {y = j},
    )

module _ (m : Matrix2D) where
  -- A matrix on the way to the closure: what it has is in the closure.
  pub record IsWithin (d : Matrix2D) : Type 0 where
    pub same_size : size d ≡ size m
    pub square : IsSquare d
    pub within :
        (i j : ℕ) → i < size m → j < size m → cell d i j ≡ true → path_below m (size m) i j ≡ true

  -- Row `i` has all that paths below `k` reach.
  abbrev pub HasPaths : Matrix2D → ℕ → ℕ → Type 0
  HasPaths d i k = (j : ℕ) → j < size m → path_below m k i j ≡ true → cell d i j ≡ true

  close_step : ℕ → ℕ → Matrix2D → Matrix2D
  close_step i k d = if cell d i k then add_row (size d) 0 i k d else d

  cell-close_step :
      (i k : ℕ) (d : Matrix2D) (i' j' : ℕ)
      → IsSquare d
      → i < size d
      → i ≢ k
      → j' < size d
      → cell (close_step i k d) i' j' ≡ (cell d i' j' || (i' == i && (cell d i k && cell d k j')))
  unfolding close_step
  cell-close_step i k d i' j' q h n l =
      ground (arith, cell-add_row (size d) 0 i k d i' j' q h n (omega arith) l)

  close_step-IsWithin :
      (i k : ℕ) (d : Matrix2D)
      → IsWithin d
      → i < size m
      → k < size m
      → i ≢ k
      → IsWithin (close_step i k d)
  unfolding close_step
  close_step-IsWithin i k d w h l n = record {
    same_size = ground (arith, w.same_size, size-add_row (size d) 0 i k d);
    square = elim (Bool-cases (cell d i k)) [
      | inl e ↦ rw e (add_row-IsSquare (size d) 0 i k d w.square)
      | inr e ↦ rw e w.square
    ];
    within = λ i' j' p q c. ground (
      arith,
      w.within i' j' p q,
      w.within i k h l,
      w.within k j' l q,
      path_below_trans m (size m) i k j' l,
      cell-close_step i k d i' j' w.square (omega (arith, w.same_size)) n
          (omega (arith, w.same_size)),
      c,
      ap (λ (x : ℕ). path_below m (size m) x j') {x = i'} {y = i},
    );
  }

  -- What closing row `i` with rows up to `k` leaves.
  record IsRowClosed (d : Matrix2D) (i k : ℕ) (d1 : Matrix2D) : Type 0 where
    good : IsWithin d1
    others : (i' j : ℕ) → i' ≢ i → j < size m → cell d1 i' j ≡ cell d i' j
    closed : HasPaths d1 i k

  close_row-IsRowClosed :
      (rounds k i : ℕ) (d : Matrix2D)
      → IsWithin d
      → i < size m
      → k + rounds ≤ size m
      → ((i < k) ⊎ (k + rounds ≤ i))
      → ((x : ℕ) → k ≤ x → x < k + rounds → HasPaths d x x)
      → HasPaths d i k
      → IsRowClosed d i (k + rounds) (close_row rounds k i d)
  unfolding close_row close_step path_below
  close_row-IsRowClosed zero k i d w h r a f p = record {
    good = w;
    others = λ i' j n l. refl;
    closed = λ j l q.
        p j l
          (ground (arith, q, ap (λ (x : ℕ). path_below m x i j) {x = k + 0} {y = k} (omega arith)));
  }
  close_row-IsRowClosed (suc rounds) k i d w h r a f p =
      let n : i ≢ k = λ e. ground (arith, a, e) in
      let d' = close_step i k d in
      let changed = λ (i' j : ℕ) (l : j < size m).
        cell-close_step i k d i' j w.square (omega (arith, w.same_size, h)) n
          (omega (arith, w.same_size, l)) in
      let rest =
        close_row-IsRowClosed rounds (suc k) i d' (close_step-IsWithin i k d w h (omega arith) n) h
          (omega arith) (ground (arith, a))
          (λ x g l j s q. ground (arith, changed x j s, f x (omega arith) (omega arith) j s q))
          (λ j s q. ground (
            arith,
            changed i j s,
            q,
            p j s,
            p k (omega arith),
            f k (omega arith) (omega arith) j s,
          )) in
      record {
        good = rest.good;
        others = λ i' j e s. rest.others i' j e s ∙ ground (arith, changed i' j s, e);
        closed = λ j s q. rest.closed j s (
            ground (
              arith,
              q,
              ap (λ (x : ℕ). path_below m x i j) {x = k + suc rounds} {y = suc k + rounds}
                  (omega arith),
            ));
      }

  -- The state between the rows: row `i` has what paths below `stage i` reach.
  pub record IsStage (stage : ℕ → ℕ) (d : Matrix2D) : Type 0 where
    pub good : IsWithin d
    pub paths : (i : ℕ) → i < size m → HasPaths d i (stage i)

  -- When row `i` is closed below `k`, its stage is `k`, and those of the others are as before.
  row_done :
      (stage next : ℕ → ℕ) (i k : ℕ) (d d1 : Matrix2D)
      → IsRowClosed d i k d1
      → IsStage stage d
      → ((x : ℕ) → x ≢ i → next x ≡ stage x)
      → next i ≡ k
      → IsStage next d1
  row_done stage next i k d d1 row g same now = record {
    good = row.good;
    paths = λ x l j s q. elim (Bool-cases (x == i)) [
      | inl e ↦ ground (
        arith,
        q,
        e,
        row.closed j s,
        now,
        ap (λ (y : ℕ). path_below m (next y) y j) {x = x} {y = i},
        ap (λ (y : ℕ). path_below m y i j) now,
        ap (λ (y : ℕ). cell d1 y j) {x = x} {y = i},
      )
      | inr n ↦
          row.others x j (ground (arith, n)) s
          ∙ g.paths x l j s
              (ap (λ (y : ℕ). path_below m y x j) (sym (same x (ground (arith, n)))) ∙ q)
    ];
  }

  -- The rows before `i` are closed below themselves.
  abbrev pub below : ℕ → ℕ → ℕ
  below i x = if ltb x i then x else 0

  pub close_below-IsStage :
      (rounds i : ℕ) (d : Matrix2D)
      → i + rounds ≤ size m
      → IsStage (below i) d
      → IsStage (below (i + rounds)) (close_below rounds i d)
  unfolding close_below
  close_below-IsStage zero i d r g =
      subst (λ x. IsStage (below x) d) {x = i} {y = i + 0} (omega arith) g
  close_below-IsStage (suc rounds) i d r g =
      let row =
        close_row-IsRowClosed i 0 i d g.good (omega arith) (omega arith) (inr (omega arith))
          (λ x a l.
            subst (HasPaths d x) {x = below i x} {y = x} (ground arith) (g.paths x (omega arith)))
          (subst (HasPaths d i) {x = below i i} {y = 0} (ground arith) (g.paths i (omega arith))) in
      subst (λ x. IsStage (below x) (close_below rounds (suc i) (close_row i 0 i d)))
        {x = suc i + rounds} {y = i + suc rounds} (omega arith)
        (close_below-IsStage rounds (suc i) (close_row i 0 i d) (omega arith) (
          row_done (below i) (below (suc i)) i (0 + i) d _ row g (λ x n. ground arith)
            (ground arith)))

  -- The rows from `i` on are closed below themselves, and the rows before wholly.
  abbrev pub above : ℕ → ℕ → ℕ
  above i x = if ltb x i then size m else x

  -- No new path is allowed where `i` itself is passed.
  pub path_below_self : (i j : ℕ) → path_below m (suc i) i j ≡ true → path_below m i i j ≡ true
  unfolding path_below
  path_below_self i j p = ground (arith, p)

  pub close_above-IsStage :
      (rounds i : ℕ) (d : Matrix2D)
      → i + rounds < size m
      → IsStage (above i) d
      → IsStage (above (i + rounds)) (close_above rounds i d)
  unfolding close_above
  close_above-IsStage zero i d r g =
      subst (λ x. IsStage (above x) d) {x = i} {y = i + 0} (omega arith) g
  close_above-IsStage (suc rounds) i d r g =
      let count : size d - suc i ≡ size m - suc i = omega (arith, g.good.same_size) in
      let row =
        close_row-IsRowClosed (size d - suc i) (suc i) i d g.good (omega arith)
          (omega (arith, count)) (inl (omega arith))
          (λ x a l.
            subst (HasPaths d x) {x = above i x} {y = x} (ground arith)
              (g.paths x (omega (arith, count))))
          (λ j s q.
            subst (HasPaths d i) {x = above i i} {y = i} (ground arith) (g.paths i (omega arith)) j
              s (path_below_self i j q)) in
      subst
        (λ x.
          IsStage (above x) (close_above rounds (suc i) (close_row (size d - suc i) (suc i) i d)))
        {x = suc i + rounds} {y = i + suc rounds} (omega arith)
        (close_above-IsStage rounds (suc i) (close_row (size d - suc i) (suc i) i d) (omega arith) (
          row_done (above i) (above (suc i)) i (suc i + (size d - suc i)) d _ row g
            (λ x n. ground arith) (ground (arith, count))))
