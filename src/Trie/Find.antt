-- ===== src/Trie/Find.antt =====
-- src/Trie.hpp: what a prefix tree holds, as a search for the rest of a sequence behind each label.
use mathlib.Core.Option.{none-ne-some, some-injective}
use rustmc.Prelude.{
  ℕ, suc, ◌≤◌, ◌<◌, ◌≡◌, refl, subst, false, List, [], ◌∷◌, Option, none, some, ltb, lt→ltb, ◌==◌,
  if◌then◌else◌, ◌>>=◌, length, trichotomy, inl, inr, arith,
}
use rustmc.Trie.{Node, Nodes, node, nil, cons, first, label, get_edge, add_edge, set_edge}

-- What follows a label in a sequence.
unfoldable pub strip : List ℕ → List ℕ → Option (List ℕ)
strip [] t = some t
strip (x ∷ l) [] = none
strip (x ∷ l) (y ∷ t) = let rest = strip l t in if x == y then rest else none

-- The payload, or the search below when something is left of the sequence.
abbrev at_rest {ℓ} : {A : Type ℓ} → A → (List ℕ → Option A) → List ℕ → Option A
at_rest d below [] = some d
at_rest d below (x ∷ r) = below (x ∷ r)

module _ {P : Type 0} where
  unfoldable mutual
    unfolding strip

    pub find_node : Node P → List ℕ → Option P
    find_node (node l d ks) t = strip l t >>= at_rest d (λ r. find ks r)

    pub find : Nodes P → List ℕ → Option P
    find nil t = none
    find (cons n ns) t =
        let here = find_node n t in
        let rest = find ns t in if first (label n) == first t then here else rest

  -- The children of a node have labels that are not empty and shorter than 128 values, and come in the
  -- order of the first values of these, from `lo` on.
  unfoldable mutual
    pub IsNode : Node P → Type 0
    IsNode (node l d ks) = (0 < length l) × (length l < 128) × IsOrdered 0 ks

    pub IsOrdered : ℕ → Nodes P → Type 0
    IsOrdered lo nil = Unit {0}
    IsOrdered lo (cons n ns) =
        (lo ≤ first (label n)) × IsNode n × IsOrdered (suc (first (label n))) ns

  find-below :
      (lo : ℕ) (cs : Nodes P) (t : List ℕ) → IsOrdered lo cs → first t < lo → find cs t ≡ none
  unfolding find IsOrdered
  find-below lo nil t f h = refl
  find-below lo (cons n ns) t f h =
      ground (arith, find-below (suc (first (label n))) ns t f.2 (omega (arith, f.0)))

  -- The child at the first value is the only one that can hold the sequence.
  pub find-get_edge :
      (lo : ℕ) (cs : Nodes P) (t : List ℕ)
      → IsOrdered lo cs
      → find cs t ≡ (get_edge cs (first t) >>= λ n. find_node n t)
  unfolding find IsOrdered get_edge
  find-get_edge lo nil t f = refl
  find-get_edge lo (cons n ns) t f = ground (
    arith,
    find-get_edge (suc (first (label n))) ns t f.2,
    find-below (suc (first (label n))) ns t f.2,
  )

  -- A node may take the place of the child of the same first value.
  pub set_edge-IsSet :
      (lo : ℕ) (cs : Nodes P) (n m : Node P)
      → IsOrdered lo cs
      → get_edge cs (first (label m)) ≡ some n
      → IsNode m
      → (r : Nodes P) × (set_edge cs m ≡ some r)
        × IsOrdered lo r
        × ((t : List ℕ)
            → find r t ≡ (if first (label m) == first t then find_node m t else find cs t))
  unfolding find IsOrdered get_edge set_edge
  set_edge-IsSet lo nil n m f e g = absurd (none-ne-some _ e)
  set_edge-IsSet lo (cons c cs) n m f e g = elim (trichotomy (first (label c)) (first (label m))) [
    | inl less ↦
        let rest = set_edge-IsSet (suc (first (label c))) cs n m f.2 (ground (arith, e, less)) g in
        (
          cons c rest.0,
          ground (arith, less, rest.1),
          (f.0, f.1, rest.2),
          λ t. ground (arith, rest.3 t, less),
        )
    | inr (inl eq) ↦ (
      cons m cs,
      ground (arith, eq),
      (omega (arith, f.0, eq), g, subst (λ (k : ℕ). IsOrdered (suc k) cs) eq f.2),
      λ t. ground (arith, eq),
    )
    | inr (inr more) ↦ absurd (ground (arith, e, more))
  ]

  -- A node whose first value no child has may be put in front of its lower bound.
  pub add_edge-IsAdded :
      (lo : ℕ) (cs : Nodes P) (m : Node P)
      → IsOrdered lo cs
      → lo ≤ first (label m)
      → get_edge cs (first (label m)) ≡ none
      → IsNode m
      → IsOrdered lo (add_edge cs m)
        × ((t : List ℕ)
            → find (add_edge cs m) t
              ≡ (if first (label m) == first t then find_node m t else find cs t))
  unfolding find IsOrdered get_edge add_edge
  add_edge-IsAdded lo nil m f h e g = ((h, g, tt), λ t. refl)
  add_edge-IsAdded lo (cons c cs) m f h e g =
      elim (trichotomy (first (label c)) (first (label m))) [
        | inl less ↦
            let rest =
              add_edge-IsAdded (suc (first (label c))) cs m f.2 (omega arith)
                (ground (arith, e, less)) g in
            (rw (lt→ltb _ _ less) (f.0, f.1, rest.0), λ t. ground (arith, rest.1 t, less))
        | inr (inl eq) ↦ absurd (ground (arith, e, eq))
        | inr (inr more) ↦
            let no : ltb (first (label c)) (first (label m)) ≡ false = ground (arith, more) in
            (rw no (h, g, (omega arith, f.1, f.2)), λ t. ground (arith, more))
      ]

  -- What `get_edge` answers is a child with the first value that was asked for.
  pub get_edge-IsNode :
      (lo : ℕ) (cs : Nodes P) (id : ℕ) (n : Node P)
      → IsOrdered lo cs
      → get_edge cs id ≡ some n
      → IsNode n × (first (label n) ≡ id)
  unfolding IsOrdered get_edge
  get_edge-IsNode lo nil id n f e = absurd (none-ne-some _ e)
  get_edge-IsNode lo (cons c cs) id n f e = elim (trichotomy (first (label c)) id) [
    | inl less ↦ get_edge-IsNode (suc (first (label c))) cs id n f.2 (ground (arith, e, less))
    | inr (inl eq) ↦
        let here : c ≡ n = some-injective _ _ (ground (arith, e, eq)) in
        subst (λ m. IsNode m × (first (label m) ≡ id)) here (f.1, eq)
    | inr (inr more) ↦ absurd (ground (arith, e, more))
  ]

  -- A child put in its own place changes nothing.
  pub set_edge_self :
      (lo : ℕ) (cs : Nodes P) (n : Node P)
      → IsOrdered lo cs
      → get_edge cs (first (label n)) ≡ some n
      → set_edge cs n ≡ some cs
  unfolding IsOrdered get_edge set_edge
  set_edge_self lo nil n f e = absurd (none-ne-some _ e)
  set_edge_self lo (cons c cs) n f e = elim (trichotomy (first (label c)) (first (label n))) [
    | inl less ↦
        let rest = set_edge_self (suc (first (label c))) cs n f.2 (ground (arith, e, less)) in
        ground (arith, less, rest)
    | inr (inl eq) ↦
        let here : c ≡ n = some-injective _ _ (ground (arith, e, eq)) in ground (arith, eq, here)
    | inr (inr more) ↦ absurd (ground (arith, e, more))
  ]
