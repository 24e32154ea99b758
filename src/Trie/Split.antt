-- ===== src/Trie/Split.antt =====
-- src/Trie.hpp: the nodes that `addSeq` makes of a child, by how the sequence and its label relate.
use rustmc.Prelude.{
  ℕ, ◌<◌, ◌≡◌, ◌≢◌, refl, sym, ap, subst, ◌∙◌, ◌⊎◌, inl, inr, false, Bool-cases, ==_iff, List, [],
  ◌∷◌, ◌++◌, none, some, ◌>>=◌, ◌==◌, if◌then◌else◌, Option-cases, length, arith,
}
use rustmc.Trie.{Nodes, node, nil, cons, first, get_edge, add_edge}
use rustmc.Trie.Find.{strip, find, find_node, IsOrdered, add_edge-IsAdded}
use rustmc.Trie.Query.{strip-append, strip_self, strip-longer, strip-parting}
use rustmc.Trie.Lookup.{strip-whole, append-nil}
use rustmc.Trie.Insert.{strip-some, Inserted, find_node-leaf, find_node-whole}

module _ {P : Type 0} where
  find-only_child :
      (x : ℕ) (q w : List ℕ) (d : P) (ks : Nodes P)
      → find (cons (node (x ∷ q) d ks) nil) w ≡ find_node (node (x ∷ q) d ks) w
  unfolding find strip
  find-only_child x q [] d ks = elim (Bool-cases (x == 0)) [ inl y ↦ rw y refl | inr n ↦ rw n refl ]
  find-only_child x q (y ∷ w) d ks = elim (Bool-cases (x == y)) [
    | inl e ↦ rw e refl
    | inr n ↦ rw n refl
  ]

  -- The search in a node, in two steps.
  find_node-split :
      (l : List ℕ) (x : ℕ) (q : List ℕ) (d : P) (ks : Nodes P) (t : List ℕ)
      → find_node (node (l ++ x ∷ q) d ks) t ≡ (strip l t >>= λ w. find_node (node (x ∷ q) d ks) w)
  unfolding find_node
  find_node-split l x q d ks t = elim (Option-cases (strip l t)) [
    | inl e ↦ rw (strip-append l (x ∷ q) t, e) refl
    | inr e ↦ rw (strip-append l (x ∷ q) t, e.1) refl
  ]

  pub split-shorter :
      (empty : P) (s : List ℕ) (x : ℕ) (q : List ℕ) (d e : P) (ks : Nodes P)
      → Inserted empty s d
          (find_node (node (s ++ x ∷ q) e ks))
          (find_node (node s d (cons (node (x ∷ q) e ks) nil)))
  unfolding find_node
  split-shorter empty s x q d e ks = (
    rw (strip-longer s x q) refl,
    rw (strip-whole s) refl,
    λ t n. kept t n (Option-cases (strip s t)),
  )
    where
      kept :
          (t : List ℕ)
          → t ≢ s
          → (strip s t ≡ none) ⊎ ((w : List ℕ) × (strip s t ≡ some w))
          → (find_node (node s d (cons (node (x ∷ q) e ks) nil)) t
              ≡ find_node (node (s ++ x ∷ q) e ks) t)
            ⊎ ((find_node (node (s ++ x ∷ q) e ks) t ≡ none)
                × (find_node (node s d (cons (node (x ∷ q) e ks) nil)) t ≡ some empty))
      kept t n (inl p) = inl (rw (find_node-split s x q e ks t, p) refl)
      kept t n (inr ([], p)) = absurd (n (strip-some s t [] p ∙ append-nil s))
      kept t n (inr (y ∷ w, p)) =
          inl (rw (find_node-split s x q e ks t, p) (find-only_child x q (y ∷ w) e ks))

  -- The children below a common part, and what they hold.
  pub below_common :
      (x y : ℕ) (r q : List ℕ) (d e : P) (ks : Nodes P)
      → x ≢ y
      → IsOrdered 0 (cons (node (y ∷ q) e ks) nil)
      → length (x ∷ r) < 128
      → IsOrdered 0 (add_edge (cons (node (y ∷ q) e ks) nil) (node (x ∷ r) d nil))
        × ((t : List ℕ)
            → find (add_edge (cons (node (y ∷ q) e ks) nil) (node (x ∷ r) d nil)) t ≡ (
                if x == first t
                then find_node (node (x ∷ r) d nil) t
                else find (cons (node (y ∷ q) e ks) nil) t))
  unfolding IsOrdered get_edge
  below_common x y r q d e ks n f h =
      add_edge-IsAdded 0 (cons (node (y ∷ q) e ks) nil) (node (x ∷ r) d nil) f (omega arith)
        (ground (arith, n)) (omega arith, h, tt)

  find_node-other :
      (x y : ℕ) (q w : List ℕ) (e : P) (ks : Nodes P)
      → x ≢ y
      → find_node (node (y ∷ q) e ks) (x ∷ w) ≡ none
  unfolding find_node strip
  find_node-other x y q w e ks n = let no : (y == x) ≡ false = ground (arith, n) in rw no refl

  module _ (empty : P) (c : List ℕ) (x y : ℕ) (r q : List ℕ) (d e : P) (ks : Nodes P) (n : x ≢ y)
      (f : IsOrdered 0 (cons (node (y ∷ q) e ks) nil)) (h : length (x ∷ r) < 128) where
    abbrev pub fork : Nodes P
    fork = add_edge (cons (node (y ∷ q) e ks) nil) (node (x ∷ r) d nil)

    kept_at_fork :
        (t : List ℕ)
        → t ≢ c ++ x ∷ r
        → (strip c t ≡ none) ⊎ ((w : List ℕ) × (strip c t ≡ some w))
        → (find_node (node c empty fork) t ≡ find_node (node (c ++ y ∷ q) e ks) t)
          ⊎ ((find_node (node (c ++ y ∷ q) e ks) t ≡ none)
              × (find_node (node c empty fork) t ≡ some empty))
    unfolding find_node strip
    kept_at_fork t u (inl p) = inl (rw (find_node-split c y q e ks t, p) refl)
    kept_at_fork t u (inr ([], p)) = inr (rw (find_node-split c y q e ks t, p) refl, rw p refl)
    kept_at_fork t u (inr (z ∷ w, p)) = elim (Bool-cases (x == z)) [
      | inl s ↦
          let head : x ≡ z = (==_iff x z).0 s in
          let other : (z ∷ w) ≢ (x ∷ r) = λ g. u (strip-some c t (z ∷ w) p ∙ ap (λ v. c ++ v) g) in
          let before : find_node (node (y ∷ q) e ks) (z ∷ w) ≡ none =
            subst (λ k. find_node (node (y ∷ q) e ks) (k ∷ w) ≡ none) head
              (find_node-other x y q w e ks n) in
          let now : find fork (z ∷ w) ≡ none =
            (below_common x y r q d e ks n f h).1 (z ∷ w)
            ∙ ap
                (λ b.
                  if b
                  then find_node (node (x ∷ r) d nil) (z ∷ w)
                  else find (cons (node (y ∷ q) e ks) nil) (z ∷ w))
                s
            ∙ find_node-leaf (x ∷ r) (z ∷ w) d other in
          inl (rw (find_node-split c y q e ks t, p) (now ∙ sym before))
      | inr s ↦
          let now : find fork (z ∷ w) ≡ find_node (node (y ∷ q) e ks) (z ∷ w) =
            (below_common x y r q d e ks n f h).1 (z ∷ w)
            ∙ rw s (find-only_child y q (z ∷ w) e ks) in
          inl (rw (find_node-split c y q e ks t, p) now)
    ]

    pub split-parting :
        Inserted empty
          (c ++ x ∷ r)
          d
          (find_node (node (c ++ y ∷ q) e ks))
          (find_node (node c empty fork))
    unfolding find_node
    split-parting =
        let new : find fork (x ∷ r) ≡ some d =
          (below_common x y r q d e ks n f h).1 (x ∷ r)
          ∙ ap
              (λ b.
                if b
                then find_node (node (x ∷ r) d nil) (x ∷ r)
                else find (cons (node (y ∷ q) e ks) nil) (x ∷ r))
              ((==_iff x x).1 refl)
          ∙ find_node-whole (x ∷ r) d in
        (
          rw (strip-parting c x y r q n) refl,
          rw (strip_self c (x ∷ r)) new,
          λ t u. kept_at_fork t u (Option-cases (strip c t)),
        )

  -- What is inserted below a label is inserted behind it.
  pub split-longer :
      (empty : P) (l : List ℕ) (x : ℕ) (r : List ℕ) (d e : P) (ks ms : Nodes P)
      → Inserted empty (x ∷ r) d (find ks) (find ms)
      → Inserted empty (l ++ x ∷ r) d (find_node (node l e ks)) (find_node (node l e ms))
  unfolding find_node
  split-longer empty l x r d e ks ms i = (
    rw (strip_self l (x ∷ r)) i.0,
    rw (strip_self l (x ∷ r)) i.1,
    λ t u. kept t u (Option-cases (strip l t)),
  )
    where
      kept :
          (t : List ℕ)
          → t ≢ l ++ x ∷ r
          → (strip l t ≡ none) ⊎ ((w : List ℕ) × (strip l t ≡ some w))
          → (find_node (node l e ms) t ≡ find_node (node l e ks) t)
            ⊎ ((find_node (node l e ks) t ≡ none) × (find_node (node l e ms) t ≡ some empty))
      kept t u (inl p) = inl (rw p refl)
      kept t u (inr ([], p)) = inl (rw p refl)
      kept t u (inr (y ∷ w, p)) =
          let other : (y ∷ w) ≢ (x ∷ r) = λ g. u (strip-some l t (y ∷ w) p ∙ ap (λ v. l ++ v) g) in
          rw p (i.2 (y ∷ w) other)
