-- ===== src/Trie/Insert.antt =====
-- src/Trie.hpp: what a change of one child does to the sequences that a tree holds.
use rustmc.Prelude.{
  ℕ, ◌<◌, ◌≡◌, ◌≢◌, refl, sym, ap, subst, ◌∙◌, ◌⊎◌, inl, inr, Bool-cases, ==_iff, List, [], ◌∷◌,
  ◌++◌, Option, none, some, ◌==◌, Option-cases, length, arith,
}
use mathlib.Core.Option.{none-ne-some, some-injective}
use rustmc.Trie.{Node, Nodes, node, nil, first, label, get_edge, add_edge, set_edge}
use rustmc.Trie.Find.{
  strip, find, find_node, IsNode, IsOrdered, find-get_edge, set_edge-IsSet, add_edge-IsAdded,
}
use rustmc.Trie.Lookup.{strip-whole, append-nil}

pub strip-some : (l t r : List ℕ) → strip l t ≡ some r → t ≡ l ++ r
unfolding strip
strip-some [] t r e = some-injective _ _ e
strip-some (x ∷ l) [] r e = absurd (none-ne-some _ e)
strip-some (x ∷ l) (y ∷ t) r e = elim (Bool-cases (x == y)) [
  | inl q ↦
      let rest : t ≡ l ++ r = strip-some l t r (ground (arith, e, q)) in
      let head : x ≡ y = (==_iff x y).0 q in rw head (ap (λ u. y ∷ u) rest)
  | inr n ↦ absurd (ground (arith, e, n))
]

module _ {P : Type 0} where
  -- Every sequence but `s` is found as before, but that where a label was split a sequence that was not
  -- found may be found with `empty`.
  abbrev pub Kept : P → List ℕ → (List ℕ → Option P) → (List ℕ → Option P) → Type 0
  Kept empty s f g = (t : List ℕ) → t ≢ s → (g t ≡ f t) ⊎ ((f t ≡ none) × (g t ≡ some empty))

  abbrev pub Inserted : P → List ℕ → P → (List ℕ → Option P) → (List ℕ → Option P) → Type 0
  Inserted empty s d f g = (f s ≡ none) × (g s ≡ some d) × Kept empty s f g

  pub find_node-leaf : (s t : List ℕ) (d : P) → t ≢ s → find_node (node s d nil) t ≡ none
  unfolding find_node
  find_node-leaf s t d n = elim (Option-cases (strip s t)) [
    | inl e ↦ rw e refl
    | inr ([], e) ↦ absurd (n (strip-some s t [] e ∙ append-nil s))
    | inr (x ∷ r, e) ↦ rw e refl
  ]

  pub find_node-whole : (s : List ℕ) (d : P) → find_node (node s d nil) s ≡ some d
  unfolding find_node
  find_node-whole s d = rw (strip-whole s) refl

  pub found_in :
      (cs : Nodes P) (n : Node P) (s t : List ℕ)
      → IsOrdered 0 cs
      → get_edge cs (first s) ≡ some n
      → first t ≡ first s
      → find cs t ≡ find_node n t
  found_in cs n s t f e q = find-get_edge 0 cs t f ∙ rw (q, e) refl

  -- A child is replaced by a node that starts with the same value and holds one sequence more.
  pub set_edge-Inserted :
      (empty : P) (cs : Nodes P) (n m : Node P) (s : List ℕ) (d : P)
      → IsOrdered 0 cs
      → get_edge cs (first s) ≡ some n
      → IsNode m
      → first (label m) ≡ first s
      → Inserted empty s d (find_node n) (find_node m)
      → (r : Nodes P) × (set_edge cs m ≡ some r)
        × IsOrdered 0 r
        × Inserted empty s d (find cs) (find r)
  set_edge-Inserted empty cs n m s d f e g h i =
      let is = set_edge-IsSet 0 cs n m f (subst (λ k. get_edge cs k ≡ some n) (sym h) e) g in
      let kept : Kept empty s (find cs) (find is.0) = λ t u.
        elim (Bool-cases (first (label m) == first t)) [
          | inl y ↦
              let was =
                found_in cs n s t f e (sym ((==_iff (first (label m)) (first t)).0 y) ∙ h) in
              let now : find is.0 t ≡ find_node m t = is.3 t ∙ rw y refl in
              elim (i.2 t u) [
                | inl k ↦ inl (now ∙ k ∙ sym was)
                | inr k ↦ inr (was ∙ k.0, now ∙ k.1)
              ]
          | inr n ↦ inl (is.3 t ∙ rw n refl)
        ] in
      let now : find is.0 s ≡ find_node m s =
        is.3 s ∙ rw ((==_iff (first (label m)) (first s)).1 h) refl in
      (is.0, is.1, is.2, (found_in cs n s s f e refl ∙ i.0, now ∙ i.1, kept))

  -- A child is added, under a value that none has.
  pub add_edge-Inserted :
      (empty : P) (cs : Nodes P) (s : List ℕ) (d : P)
      → IsOrdered 0 cs
      → get_edge cs (first s) ≡ none
      → 0 < length s
      → length s < 128
      → IsOrdered 0 (add_edge cs (node s d nil))
        × Inserted empty s d (find cs) (find (add_edge cs (node s d nil)))
  unfolding IsOrdered
  add_edge-Inserted empty cs s d f e g h =
      let is = add_edge-IsAdded 0 cs (node s d nil) f (omega arith) e (g, h, tt) in
      let absent : (t : List ℕ) → first s ≡ first t → find cs t ≡ none =
        λ t q. find-get_edge 0 cs t f ∙ rw (sym q, e) refl in
      let kept : Kept empty s (find cs) (find (add_edge cs (node s d nil))) = λ t u.
        elim (Bool-cases (first s == first t)) [
          | inl y ↦ inl (
              is.1 t
              ∙ (rw y (find_node-leaf s t d u))
              ∙ sym (absent t ((==_iff (first s) (first t)).0 y)))
          | inr n ↦ inl (is.1 t ∙ rw n refl)
        ] in
      let now : find (add_edge cs (node s d nil)) s ≡ find_node (node s d nil) s =
        is.1 s ∙ rw ((==_iff (first s) (first s)).1 refl) refl in
      (is.0, (absent s refl, now ∙ find_node-whole s d, kept))
