-- ===== src/Trie/Add.antt =====
-- src/Trie.hpp, addSeq: the whole insertion.
use rustmc.Prelude.{
  ℕ, zero, suc, ◌+◌, ◌≤◌, ◌<◌, ◌≡◌, ◌≢◌, refl, sym, ap, subst, ◌∙◌, ◌⊎◌, inl, inr, Bool, true,
  false, ◌||◌, List, [], ◌∷◌, ◌++◌, Option, some, ◌==◌, leb, Option-cases, length, length-append,
  drop, arith,
}
use rustmc.Trie.{
  Nodes, node, nil, cons, first, get_edge, add_edge, set_edge, split_edge, add_at, query, add_below,
}
use rustmc.Trie.Find.{find, find_node, IsNode, IsOrdered, get_edge-IsNode, set_edge_self}
use rustmc.Trie.Query.{
  Parts, parts, query_self, query-longer, query-shorter, query-parting, strip_self, drop-append,
  take-append,
}
use rustmc.Trie.Lookup.{strip-whole, first-parts}
use rustmc.Trie.Insert.{Inserted, set_edge-Inserted, add_edge-Inserted, found_in}
use rustmc.Trie.Split.{split-shorter, split-parting, split-longer, below_common, fork}

first-append : (c : List ℕ) (x : ℕ) (r : List ℕ) → 0 < length c → first (c ++ x ∷ r) ≡ first c
first-append [] x r h = absurd (omega (arith, h))
first-append (z ∷ c) x r h = refl

module _ {P : Type 0} where
  -- The insertion ends without an abort, keeps the tree in order, and either finds the sequence and
  -- changes nothing or puts it in.
  abbrev pub Added : P → Nodes P → List ℕ → P → Option (Bool × Nodes P) → Type 0
  Added empty cs s d o =
      (b : Bool) × (r : Nodes P) × (o ≡ some (b, r))
      × IsOrdered 0 r
      × (((b ≡ false) × (r ≡ cs) × ((p : P) × (find cs s ≡ some p)))
          ⊎ ((b ≡ true) × Inserted empty s d (find cs) (find r)))

  split_edge-IsSplit :
      (empty : P) (cs : Nodes P) (id : ℕ) (a : List ℕ) (x : ℕ) (q : List ℕ) (e : P) (ks : Nodes P)
      → get_edge cs id ≡ some (node (a ++ x ∷ q) e ks)
      → 0 < length a
      → split_edge empty cs id (length a) ≡ some (node a empty (cons (node (x ∷ q) e ks) nil))
  unfolding split_edge add_edge
  split_edge-IsSplit empty cs id a x q e ks h g =
      let inside : (length a == 0 || leb (length (a ++ x ∷ q)) (length a)) ≡ false =
        ground (arith, length-append a (x ∷ q), g) in
      rw (h, inside, take-append a (x ∷ q), drop-append a (x ∷ q)) refl

  module _ (empty : P) (cs : Nodes P) (d e : P) (ks : Nodes P) (f : IsOrdered 0 cs)
      (o : Option (Bool × Nodes P)) where
    Added-same :
        (l : List ℕ)
        → get_edge cs (first l) ≡ some (node l e ks)
        → Added empty cs l d (add_at empty cs (node l e ks) l d o (query l l))
    unfolding add_at find_node
    Added-same l h = (
      false,
      cs,
      rw (query_self l) refl,
      f,
      inl (refl, refl, (e, found_in cs (node l e ks) l l f h refl ∙ rw (strip-whole l) refl)),
    )

    Added-shorter :
        (s : List ℕ) (x : ℕ) (q : List ℕ)
        → get_edge cs (first s) ≡ some (node (s ++ x ∷ q) e ks)
        → IsNode (node (s ++ x ∷ q) e ks)
        → 0 < length s
        → Added empty cs s d (add_at empty cs (node (s ++ x ∷ q) e ks) s d o (query s (s ++ x ∷ q)))
    unfolding add_at IsOrdered
    Added-shorter s x q h is g =
        let fits = length-append s (x ∷ q) in
        let set =
          set_edge-Inserted empty cs (node (s ++ x ∷ q) e ks)
            (node s d (cons (node (x ∷ q) e ks) nil)) s d f h
            (g, omega (arith, is.1), (omega arith, (omega arith, omega (arith, is.1), is.2), tt))
            refl (split-shorter empty s x q d e ks) in
        (
          true,
          set.0,
          rw (query-longer s x q, split_edge-IsSplit empty cs (first s) s x q e ks h g, set.1) refl,
          set.2,
          inr (refl, set.3),
        )

    Added-parting :
        (c : List ℕ) (x y : ℕ) (r q : List ℕ)
        → get_edge cs (first (c ++ x ∷ r)) ≡ some (node (c ++ y ∷ q) e ks)
        → IsNode (node (c ++ y ∷ q) e ks)
        → x ≢ y
        → 0 < length c
        → length (c ++ x ∷ r) < 128
        → Added empty cs (c ++ x ∷ r) d (
            add_at empty cs
              (node (c ++ y ∷ q) e ks)
              (c ++ x ∷ r)
              d
              o
              (query (c ++ x ∷ r) (c ++ y ∷ q)))
    unfolding add_at IsOrdered
    Added-parting c x y r q h is n g short =
        let fits : length (c ++ y ∷ q) ≡ length c + length (y ∷ q) = length-append c (y ∷ q) in
        let fits_too : length (c ++ x ∷ r) ≡ length c + length (x ∷ r) = length-append c (x ∷ r) in
        let child : IsOrdered 0 (cons (node (y ∷ q) e ks) nil) =
          (omega arith, (omega arith, omega (arith, is.1, fits), is.2), tt) in
        let below : length (x ∷ r) < 128 = omega (arith, fits_too, short) in
        let common_short : length c < 128 = omega (arith, fits_too, short) in
        let set =
          set_edge-Inserted empty cs (node (c ++ y ∷ q) e ks)
            (node c empty (fork empty c x y r q d e ks n child below)) (c ++ x ∷ r) d f h
            (g, common_short, (below_common x y r q d e ks n child below).0)
            (sym (first-append c x r g)) (split-parting empty c x y r q d e ks n child below) in
        (
          true,
          set.0,
          rw
              (
                query-parting c x y r q n g common_short,
                split_edge-IsSplit empty cs (first (c ++ x ∷ r)) c y q e ks h g,
                drop-append c (x ∷ r),
                set.1,
              )
              refl,
          set.2,
          inr (refl, set.3),
        )

    -- Behind a label the answer of the rounds below is passed on.
    Added-longer :
        (l : List ℕ) (x : ℕ) (r : List ℕ)
        → get_edge cs (first l) ≡ some (node l e ks)
        → IsNode (node l e ks)
        → Added empty ks (x ∷ r) d o
        → Added empty cs
            (l ++ x ∷ r)
            d
            (add_at empty cs (node l e ks) (l ++ x ∷ r) d o (query (l ++ x ∷ r) l))
    unfolding add_at IsOrdered find_node
    Added-longer l x r h is (b, ms, run, ordered, inl (old, kept, (p, found))) =
        let top : first (l ++ x ∷ r) ≡ first l = first-append l x r is.0 in
        let self : set_edge cs (node l e ms) ≡ some cs =
          subst (λ k. set_edge cs (node l e k) ≡ some cs) (sym kept)
            (set_edge_self 0 cs (node l e ks) f h) in
        (
          b,
          cs,
          rw (query-shorter l x r, run, self) refl,
          f,
          inl (
            old,
            refl,
            (p, found_in cs (node l e ks) l (l ++ x ∷ r) f h top ∙ rw (strip_self l (x ∷ r)) found),
          ),
        )
    Added-longer l x r h is (b, ms, run, ordered, inr (added, new)) =
        let top : first (l ++ x ∷ r) ≡ first l = first-append l x r is.0 in
        let set =
          set_edge-Inserted empty cs (node l e ks) (node l e ms) (l ++ x ∷ r) d f
            (subst (λ k. get_edge cs k ≡ some (node l e ks)) (sym top) h) (is.0, is.1, ordered)
            (sym top) (split-longer empty l x r d e ks ms new) in
        (b, set.0, rw (query-shorter l x r, run, set.1) refl, set.2, inr (added, set.3))

    Added-at :
        (l s : List ℕ)
        → get_edge cs (first s) ≡ some (node l e ks)
        → IsNode (node l e ks)
        → first l ≡ first s
        → 0 < length s
        → length s < 128
        → ((x : ℕ) (r : List ℕ) → s ≡ l ++ x ∷ r → Added empty ks (x ∷ r) d o)
        → Parts s l
        → Added empty cs s d (add_at empty cs (node l e ks) s d o (query s l))
    Added-at l s h is top g short deeper (inl p) =
        subst (λ t. Added empty cs t d (add_at empty cs (node l e ks) t d o (query t l))) (sym p)
          (Added-same l (subst (λ t. get_edge cs (first t) ≡ some (node l e ks)) p h))
    Added-at l s h is top g short deeper (inr (inl (x, q, p))) =
        subst (λ m. Added empty cs s d (add_at empty cs (node m e ks) s d o (query s m))) (sym p)
          (Added-shorter s x q (subst (λ m. get_edge cs (first s) ≡ some (node m e ks)) p h)
            (subst (λ m. IsNode (node m e ks)) p is) g)
    Added-at l s h is top g short deeper (inr (inr (inl (x, r, p)))) =
        subst (λ t. Added empty cs t d (add_at empty cs (node l e ks) t d o (query t l))) (sym p)
          (Added-longer l x r (subst (λ k. get_edge cs k ≡ some (node l e ks)) (sym top) h) is
            (deeper x r p))
    Added-at l s h is top g short deeper (inr (inr (inr (c, x, r, y, q, p, u, n)))) =
        subst (λ t. Added empty cs t d (add_at empty cs (node l e ks) t d o (query t l))) (sym p)
          (subst
            (λ m.
              Added empty cs (c ++ x ∷ r) d
                (add_at empty cs (node m e ks) (c ++ x ∷ r) d o (query (c ++ x ∷ r) m)))
            (sym u)
            (Added-parting c x y r q
              (subst (λ m. get_edge cs (first (c ++ x ∷ r)) ≡ some (node m e ks)) u
                (subst (λ t. get_edge cs (first t) ≡ some (node l e ks)) p h))
              (subst (λ m. IsNode (node m e ks)) u is) n
              (first-parts c x y r q n (sym (ap first p) ∙ sym top ∙ ap first u))
              (subst (λ t. length t < 128) p short)))

  pub Added-below :
      (fuel : ℕ) (empty : P) (cs : Nodes P) (s : List ℕ) (d : P)
      → IsOrdered 0 cs
      → 0 < length s
      → length s < 128
      → length s ≤ fuel
      → Added empty cs s d (add_below fuel empty cs s d)
  unfolding add_below IsOrdered
  Added-below zero empty cs s d f g short h = absurd (omega (arith, g, h))
  Added-below (suc fuel) empty cs s d f g short h = elim (Option-cases (get_edge cs (first s))) [
    | inl e ↦
        let new = add_edge-Inserted empty cs s d f e g short in
        (true, add_edge cs (node s d nil), rw (add_below, e) refl, new.0, inr (refl, new.1))
    | inr (node l v ks, e) ↦
        let is = get_edge-IsNode 0 cs (first s) (node l v ks) f e in
        let o = add_below fuel empty ks (drop (length l) s) d in
        let deeper : (x : ℕ) (r : List ℕ) → s ≡ l ++ x ∷ r → Added empty ks (x ∷ r) d o = λ x r p.
          subst (λ t. Added empty ks (x ∷ r) d (add_below fuel empty ks t d))
            (sym (drop-append l (x ∷ r)) ∙ ap (drop (length l)) (sym p))
            (Added-below fuel empty ks (x ∷ r) d is.0.2 (omega arith)
              (omega (arith, ap length p, length-append l (x ∷ r), short))
              (omega (arith, ap length p, length-append l (x ∷ r), h, is.0.0))) in
        let step : add_below (suc fuel) empty cs s d
            ≡ add_at empty cs (node l v ks) s d o (query s l) =
          rw (add_below, e) refl in
        subst (Added empty cs s d) (sym step)
          (Added-at empty cs d v ks f o l s e is.0 is.1 g short deeper (parts s l))
  ]
