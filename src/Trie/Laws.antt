-- ===== src/Trie/Laws.antt =====
-- src/Trie.hpp: the two operations together.
use mathlib.Core.Option.{some-injective}
use rustmc.Prelude.{
  ℕ, ◌%◌, ◌<◌, ◌≡◌, ◌≢◌, refl, sym, ap, subst, ◌∙◌, ◌⊎◌, inl, inr, Bool, true, false, List, [], ◌∷◌,
  ◌++◌, Option, none, some, length, length-append, arith,
}
use rustmc.Trie.{
  Node, Nodes, node, children, data_of, set_children, query, same, as_result, add_below, add_seq,
  lookup,
}
use rustmc.Trie.Find.{find, IsOrdered}
use rustmc.Trie.Query.{common-parting}
use rustmc.Trie.Lookup.{look_below-find}
use rustmc.Trie.Insert.{Kept}
use rustmc.Trie.Add.{Added, Added-below}

module _ {P : Type 0} where
  -- Below every node, the labels of the children are not empty, are shorter than 128 values, and are in
  -- the strict order of their first values.
  abbrev pub IsTrie : Node P → Type 0
  IsTrie root = IsOrdered 0 (children root)

  -- In a tree whose labels are not empty, are shorter than 128 values, and are in the strict order of their
  -- first values, `lookup` of a sequence that is not empty, of any length, ends without an abort and
  -- answers what the search through all children finds.
  pub lookup-find :
      (root : Node P) (x : ℕ) (s : List ℕ)
      → IsTrie root
      → lookup root (x ∷ s) ≡ some (find (children root) (x ∷ s))
  unfolding lookup
  lookup-find root x s f =
      look_below-find (length (x ∷ s)) 0 (children root) (x ∷ s) f (omega arith) (omega arith)

  inserted :
      (empty : P) (root : Node P) (x : ℕ) (s : List ℕ) (d : P)
      → IsTrie root
      → length (x ∷ s) < 128
      → Added empty
          (children root)
          (x ∷ s)
          d
          (add_below (length (x ∷ s)) empty (children root) (x ∷ s) d)
  inserted empty root x s d f h =
      Added-below (length (x ∷ s)) empty (children root) (x ∷ s) d f (omega arith) h (omega arith)

  children-set_children : (root : Node P) (ks : Nodes P) → children (set_children root ks) ≡ ks
  children-set_children (node l d ms) ks = refl

  data_of-set_children :
      (root : Node P) (ks : Nodes P) → data_of (set_children root ks) ≡ data_of root
  data_of-set_children (node l d ms) ks = refl

  set_children-children : (root : Node P) → set_children root (children root) ≡ root
  set_children-children (node l d ms) = refl

  -- The insertion of a sequence of fewer than 128 values into a tree whose labels are not empty, are shorter
  -- than 128 values and are in the strict order of their first values ends without an abort and leaves
  -- such a tree.
  pub add_seq-IsTrie :
      (empty : P) (root : Node P) (s : List ℕ) (d : P)
      → IsTrie root
      → length s < 128
      → (b : Bool) × (after : Node P) × (add_seq empty root s d ≡ some (b, after)) × IsTrie after
  unfolding add_seq
  add_seq-IsTrie empty root [] d f h = (false, root, refl, f)
  add_seq-IsTrie empty root (x ∷ s) d f h =
      let is = inserted empty root x s d f h in
      (
        is.0,
        set_children root is.1,
        rw is.2 refl,
        subst (IsOrdered 0) (sym (children-set_children root is.1)) is.3,
      )

  lookup-changed :
      (root : Node P) (y : ℕ) (t : List ℕ) (ms : Nodes P)
      → IsOrdered 0 ms
      → lookup (set_children root ms) (y ∷ t) ≡ some (find ms (y ∷ t))
  lookup-changed (node l d ks) y t ms g = lookup-find (node l d ms) y t g

  -- What an insertion may answer.
  abbrev pub IsAnswer : P → Node P → List ℕ → P → Bool → Node P → Type 0
  IsAnswer empty root s d b after =
      ((b ≡ false) × (after ≡ root) × ((p : P) × (lookup root s ≡ some (some p))))
      ⊎ ((b ≡ true)
          × (lookup root s ≡ some none)
          × (lookup after s ≡ some (some d))
          × ((t : List ℕ)
              → t ≢ s
              → (lookup after t ≡ lookup root t)
                ⊎ ((lookup root t ≡ some none) × (lookup after t ≡ some (some empty)))))

  lookup-Kept :
      (empty : P) (root : Node P) (s : List ℕ) (ms : Nodes P)
      → IsTrie root
      → IsOrdered 0 ms
      → Kept empty s (find (children root)) (find ms)
      → (t : List ℕ) → t ≢ s
      → (lookup (set_children root ms) t ≡ lookup root t)
        ⊎ ((lookup root t ≡ some none) × (lookup (set_children root ms) t ≡ some (some empty)))
  unfolding lookup
  lookup-Kept empty root s ms f g k [] n =
      inl (ap (λ p. some (some p)) (data_of-set_children root ms))
  lookup-Kept empty root s ms f g k (y ∷ t) n =
      let was = lookup-find root y t f in
      let now : lookup (set_children root ms) (y ∷ t) ≡ some (find ms (y ∷ t)) =
        lookup-changed root y t ms g in
      elim (k (y ∷ t) n) [
        | inl e ↦ inl (now ∙ ap some e ∙ sym was)
        | inr e ↦ inr (was ∙ ap some e.0, now ∙ ap some e.1)
      ]

  answered :
      (empty : P) (root : Node P) (x : ℕ) (s : List ℕ) (d : P) (o : Option (Bool × Nodes P))
      → IsTrie root
      → (is : Added empty (children root) (x ∷ s) d o)
      → IsAnswer empty root (x ∷ s) d is.0 (set_children root is.1)
  answered empty root x s d o f (b, ms, run, g, inl (old, kept, (p, found))) = inl (
    old,
    ap (set_children root) kept ∙ set_children-children root,
    (p, lookup-find root x s f ∙ ap some found),
  )
  answered empty root x s d o f (b, ms, run, g, inr (added, (absent, found, kept))) = inr (
    added,
    lookup-find root x s f ∙ ap some absent,
    lookup-changed root x s ms g ∙ ap some found,
    lookup-Kept empty root (x ∷ s) ms f g kept,
  )

  -- When `addSeq` answers for a sequence of 1 to 127 values on a tree whose labels are not empty, are shorter
  -- than 128 values and are in the strict order of their first values, then it answers false exactly if `lookup` of the sequence found a payload, and the tree is as it was; or it
  -- answers true, `lookup` finds the new payload, and finds every other sequence as before, except
  -- sequences that were not found and, where a label was split, have the payload `Payload()`.
  pub add_seq-IsAnswer :
      (empty : P) (root : Node P) (x : ℕ) (s : List ℕ) (d : P) (b : Bool) (after : Node P)
      → IsTrie root
      → length (x ∷ s) < 128
      → add_seq empty root (x ∷ s) d ≡ some (b, after)
      → IsAnswer empty root (x ∷ s) d b after
  unfolding add_seq
  add_seq-IsAnswer empty root x s d b after f h run =
      let is = inserted empty root x s d f h in
      let result : add_seq empty root (x ∷ s) d ≡ some (is.0, set_children root is.1) =
        rw is.2 refl in
      subst (λ (p : Bool × Node P). IsAnswer empty root (x ∷ s) d p.0 p.1)
        (some-injective _ _ (sym result ∙ run))
        (answered empty root x s d (add_below (length (x ∷ s)) empty (children root) (x ∷ s) d) f
          is)

-- A sequence that leaves a label after a common part of 253 values, up to a multiple of 256, is taken for
-- the whole label, since the length is converted to an 8-bit result.
pub query-wraps :
    (c : List ℕ) (x y : ℕ) (r q : List ℕ)
    → x ≢ y
    → length c % 256 ≡ 253
    → query (c ++ x ∷ r) (c ++ y ∷ q) ≡ same
unfolding query as_result
query-wraps c x y r q n h =
    ground (arith, common-parting c x y r q n, length-append c (x ∷ r), length-append c (y ∷ q), h)
