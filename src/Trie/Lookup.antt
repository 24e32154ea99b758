-- ===== src/Trie/Lookup.antt =====
-- src/Trie.hpp, lookup: the walk down the tree against the search.
use rustmc.Prelude.{
  ℕ, zero, suc, ◌≤◌, ◌<◌, ◌≡◌, ◌≢◌, refl, sym, ap, subst, ◌∙◌, inl, inr, List, [], ◌∷◌, ◌++◌, some,
  Option-cases, length, length-append, drop, arith,
}
use rustmc.Trie.{Nodes, node, first, get_edge, query, look_at, look_below}
use rustmc.Trie.Find.{strip, find, find_node, IsOrdered, find-get_edge, get_edge-IsNode}
use rustmc.Trie.Query.{
  Parts, parts, query_self, query-longer, query-shorter, query-parting, strip_self, strip-longer,
  strip-parting, drop-append,
}

pub first-parts :
    (c : List ℕ) (x y : ℕ) (r q : List ℕ)
    → x ≢ y
    → first (c ++ x ∷ r) ≡ first (c ++ y ∷ q)
    → 0 < length c
first-parts [] x y r q n e = absurd (n e)
first-parts (z ∷ c) x y r q n e = omega arith

pub append-nil : (l : List ℕ) → l ++ [] ≡ l
append-nil [] = refl
append-nil (x ∷ l) = ap (λ t. x ∷ t) (append-nil l)

pub strip-whole : (l : List ℕ) → strip l l ≡ some []
strip-whole l = subst (λ t. strip l t ≡ some []) (append-nil l) (strip_self l [])

module _ {P : Type 0} where
  look_at-find_node :
      (l s : List ℕ) (d : P) (ks : Nodes P) (fuel : ℕ)
      → 0 < length l
      → length l < 128
      → first l ≡ first s
      → length s ≤ suc fuel
      → ((t : List ℕ) → 0 < length t → length t ≤ fuel → look_below fuel ks t ≡ some (find ks t))
      → Parts s l
      → look_at (node l d ks) (look_below fuel ks (drop (length l) s)) (query s l)
        ≡ some (find_node (node l d ks) s)
  unfolding find_node look_at
  look_at-find_node l s d ks fuel g h e b ih (inl p) = rw (p, query_self l, strip-whole l) refl
  look_at-find_node l s d ks fuel g h e b ih (inr (inl (x, r, p))) =
      rw (p, query-longer s x r, strip-longer s x r) refl
  look_at-find_node l s d ks fuel g h e b ih (inr (inr (inl (x, r, p)))) =
      rw (p, query-shorter l x r, drop-append l (x ∷ r), strip_self l (x ∷ r))
        (ih (x ∷ r) (omega arith) (omega (arith, ap length p, length-append l (x ∷ r))))
  look_at-find_node l s d ks fuel g h e b ih (inr (inr (inr (c, x, r, y, q, p, u, n)))) =
      let some_common : 0 < length c =
        first-parts c x y r q n (sym (ap first p) ∙ sym e ∙ ap first u) in
      let short : length c < 128 = omega (arith, ap length u, length-append c (y ∷ q)) in
      rw (p, u, query-parting c x y r q n some_common short, strip-parting c x y r q n) refl

  -- With as much fuel as the sequence is long the walk ends without an abort.
  pub look_below-find :
      (fuel lo : ℕ) (cs : Nodes P) (s : List ℕ)
      → IsOrdered lo cs
      → 0 < length s
      → length s ≤ fuel
      → look_below fuel cs s ≡ some (find cs s)
  unfolding look_below IsOrdered
  look_below-find zero lo cs s f g h = absurd (omega (arith, g, h))
  look_below-find (suc fuel) lo cs s f g h = elim (Option-cases (get_edge cs (first s))) [
    | inl e ↦ rw (find-get_edge lo cs s f, look_below, e) refl
    | inr (node l d ks, e) ↦
        let is = get_edge-IsNode lo cs (first s) (node l d ks) f e in
        rw (find-get_edge lo cs s f, look_below, e)
          (look_at-find_node l s d ks fuel is.0.0 is.0.1 is.1 h
            (λ t p q. look_below-find fuel 0 ks t is.0.2 p q) (parts s l))
  ]
