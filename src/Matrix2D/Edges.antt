-- ===== src/Matrix2D/Edges.antt =====
-- src/Matrix2D.tcc: the queries on edges.
use rustmc.Prelude.{
  ℕ, zero, suc, ◌+◌, ◌≤◌, ◌<◌, ◌≡◌, ◌↔◌, refl, Bool, true, false, ◌&&◌, ◌||◌, List, [], ◌∷◌, Option,
  some, ◌>>=◌, length, inl, inr, arith, ap, Option-cases,
}
use rustmc.Event.{Event}
use rustmc.Matrix2D.{
  Matrix2D, size, cell, get_index, select, get_in_edges, get_out_edges, none_from, has_no_edges,
  is_irreflexive,
}

pub is_empty : List Event → Bool
is_empty [] = true
is_empty (x ∷ xs) = false

both_empty :
    (p q : ℕ → Bool) (i : ℕ) (xs : List Event)
    → none_from (λ x. p x || q x) (length xs) i
      ≡ (is_empty (select p i xs) && is_empty (select q i xs))
unfolding none_from select is_empty
both_empty p q i [] = refl
both_empty p q i (x ∷ xs) = ground (arith, both_empty p q (suc i) xs)

-- The two lists of edges, when both are there.
pub no_edges : Option (List Event) → Option (List Event) → Option Bool
no_edges ins outs = ins >>= λ is. outs >>= λ os. some (is_empty is && is_empty os)

-- `hasNoEdges` answers whether the lists of incoming and of outgoing edges are empty, and aborts where they do.
pub has_no_edges-no_edges :
    (m : Matrix2D) (e : Event) → has_no_edges m e ≡ no_edges (get_in_edges m e) (get_out_edges m e)
unfolding has_no_edges no_edges get_in_edges get_out_edges size
has_no_edges-no_edges m e = elim (Option-cases (get_index m e)) [
  | inl n ↦ rw n refl
  | inr p ↦
      rw p.1
        (ap (λ (b : Bool). some b) (both_empty (λ i. cell m i p.0) (λ i. cell m p.0 i) 0 m.elems))
]

none_from-at :
    (p : ℕ → Bool) (rounds i x : ℕ)
    → none_from p rounds i ≡ true
    → i ≤ x
    → x < i + rounds
    → p x ≡ false
unfolding none_from
none_from-at p zero i x h a b = absurd (omega arith)
none_from-at p (suc rounds) i x h a b =
    ground (arith, none_from-at p rounds (suc i) x, ap p {x = i} {y = x})

none_from-all :
    (p : ℕ → Bool) (rounds i : ℕ)
    → ((x : ℕ) → i ≤ x → x < i + rounds → p x ≡ false)
    → none_from p rounds i ≡ true
unfolding none_from
none_from-all p zero i f = refl
none_from-all p (suc rounds) i f =
    rw (f i (omega arith) (omega arith))
      (none_from-all p rounds (suc i) (λ x a b. f x (omega arith) (omega arith)))

-- `isIrreflexive` answers `true` exactly where no element has an edge to itself.
pub is_irreflexive-cell :
    (m : Matrix2D) → (is_irreflexive m ≡ true) ↔ ((i : ℕ) → i < size m → cell m i i ≡ false)
unfolding is_irreflexive
is_irreflexive-cell m = (
  λ h i l. none_from-at (λ x. cell m x x) (size m) 0 i h (omega arith) (omega arith),
  λ f. none_from-all (λ x. cell m x x) (size m) 0 (λ x a b. f x (omega arith)),
)
