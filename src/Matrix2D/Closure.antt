-- ===== src/Matrix2D/Closure.antt =====
-- src/Matrix2D.tcc: Warren's algorithm computes the transitive closure.
pub mod Rows
pub mod Warren
use rustmc.Prelude.{
  ℕ, zero, suc, ◌+◌, ◌-◌, ◌≤◌, ◌<◌, ◌≡◌, ◌≢◌, ◌↔◌, refl, Bool, true, false, ◌&&◌, ◌||◌, ltb, ◌==◌,
  inl, inr, Bool-cases, Bool-ext, if◌then◌else◌, arith, ap, ◌∙◌, sym, trichotomy, subst,
}
use rustmc.Matrix2D.{Matrix2D, size, cell}

-- Whether a path leads from `i` to `j` whose inner elements have indices below `k`.
unfoldable pub path_below : Matrix2D → ℕ → ℕ → ℕ → Bool
path_below m zero i j = cell m i j
path_below m (suc k) i j =
    let direct = path_below m k i j in
    let there = path_below m k i k in let back = path_below m k k j in direct || (there && back)

-- Two such paths that meet below `k` are one.
pub path_below_trans :
    (m : Matrix2D) (k i a j : ℕ)
    → a < k
    → path_below m k i a ≡ true
    → path_below m k a j ≡ true
    → path_below m k i j ≡ true
unfolding path_below
path_below_trans m zero i a j h p q = absurd (omega arith)
path_below_trans m (suc k) i a j h p q = elim (trichotomy a k) [
  | inl l ↦ ground (
    arith,
    path_below_trans m k i a j l,
    path_below_trans m k i a k l,
    path_below_trans m k k a j l,
    path_below_trans m k k a k l,
  )
  | inr (inl e) ↦ ground (arith, ap (path_below m k i) e, ap (λ (x : ℕ). path_below m k x j) e)
  | inr (inr g) ↦ absurd (omega arith)
]

pub path_below_more :
    (m : Matrix2D) (k d i j : ℕ) → path_below m k i j ≡ true → path_below m (d + k) i j ≡ true
unfolding path_below
path_below_more m k zero i j p =
    ground (arith, p, ap (λ (x : ℕ). path_below m x i j) {x = 0 + k} {y = k} (omega arith))
path_below_more m k (suc d) i j p = ground (
  arith,
  path_below_more m k d i j p,
  ap (λ (x : ℕ). path_below m x i j) {x = suc d + k} {y = suc (d + k)} (omega arith),
)

pub path_below_le :
    (m : Matrix2D) (k l i j : ℕ) → k ≤ l → path_below m k i j ≡ true → path_below m l i j ≡ true
path_below_le m k l i j h p =
    subst (λ x. path_below m x i j ≡ true) {x = l - k + k} {y = l} (omega arith)
      (path_below_more m k (l - k) i j p)

-- One edge or more, over elements of the matrix.
pub data Reaches (m : Matrix2D) : ℕ → ℕ → Type 0 where
  edge : {i j : ℕ} → cell m i j ≡ true → Reaches m i j
  step : {i a j : ℕ} → a < size m → cell m i a ≡ true → Reaches m a j → Reaches m i j

Reaches-append :
    {m : Matrix2D} {i a j : ℕ} → a < size m → Reaches m i a → Reaches m a j → Reaches m i j
Reaches-append h (edge e) q = step h e q
Reaches-append h (step l e p) q = step l e (Reaches-append h p q)

pub Reaches-of_path_below :
    (m : Matrix2D) (k i j : ℕ) → k ≤ size m → path_below m k i j ≡ true → Reaches m i j
unfolding path_below
Reaches-of_path_below m zero i j h p = edge p
Reaches-of_path_below m (suc k) i j h p = elim (Bool-cases (path_below m k i j)) [
  | inl e ↦ Reaches-of_path_below m k i j (omega arith) e
  | inr e ↦
      Reaches-append (omega arith)
        (Reaches-of_path_below m k i k (omega arith) (ground (arith, p, e)))
        (Reaches-of_path_below m k k j (omega arith) (ground (arith, p, e)))
]

pub path_below-Reaches : {m : Matrix2D} {i j : ℕ} → Reaches m i j → path_below m (size m) i j ≡ true
unfolding path_below
path_below-Reaches {m} {i} {j} (edge e) = path_below_le m 0 (size m) i j (omega arith) e
path_below-Reaches {m} {i} {j} (step {a = a} l e p) =
    path_below_trans m (size m) i a j l (path_below_le m 0 (size m) i a (omega arith) e)
      (path_below-Reaches p)
