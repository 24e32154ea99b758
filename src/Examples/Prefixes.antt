-- ===== src/Examples/Prefixes.antt =====
-- Runs of src/Trie.hpp on short sequences.
use rustmc.Prelude.{ℕ, ◌≡◌, refl, Bool, true, [], ◌∷◌, ◌++◌, some, replicate, arith, ◌≢◌}
use rustmc.Trie.{Node, node, nil, cons, children, add_seq, lookup, query, same}
use rustmc.Trie.Find.{find, IsOrdered}
use rustmc.Trie.Laws.{IsTrie, IsAnswer, lookup-find, add_seq-IsTrie, add_seq-IsAnswer, query-wraps}

-- The tree after the sequences 1 2 3 and 1 2 4.
abbrev two_sequences : Node ℕ
two_sequences =
    node [] 0
      (cons (node (1 ∷ 2 ∷ []) 0 (cons (node (3 ∷ []) 7 nil) (cons (node (4 ∷ []) 8 nil) nil))) nil)

two_sequences-IsTrie : IsTrie two_sequences
unfolding IsOrdered
two_sequences-IsTrie = (
  omega arith,
  (
    omega arith,
    omega arith,
    (
      omega arith,
      (omega arith, omega arith, tt),
      (omega arith, (omega arith, omega arith, tt), tt),
    ),
  ),
  tt,
)

built :
    add_seq 0 (node [] 0 (cons (node (1 ∷ 2 ∷ 3 ∷ []) 7 nil) nil)) (1 ∷ 2 ∷ 4 ∷ []) 8
    ≡ some (true, two_sequences)
unfolding add_seq
built = refl

lookup-find_example :
    lookup two_sequences (1 ∷ 2 ∷ 4 ∷ []) ≡ some (find (children two_sequences) (1 ∷ 2 ∷ 4 ∷ []))
lookup-find_example = lookup-find two_sequences 1 (2 ∷ 4 ∷ []) two_sequences-IsTrie

finds_a_split : lookup two_sequences (1 ∷ 2 ∷ []) ≡ some (some 0)
unfolding lookup
finds_a_split = refl

add_seq-IsTrie_example :
    (b : Bool) × (after : Node ℕ) × (add_seq 0 two_sequences (1 ∷ 5 ∷ []) 9 ≡ some (b, after))
    × IsTrie after
add_seq-IsTrie_example =
    add_seq-IsTrie 0 two_sequences (1 ∷ 5 ∷ []) 9 two_sequences-IsTrie (omega arith)

abbrev three_sequences : Node ℕ
three_sequences = node [] 0 (
    cons
      (node (1 ∷ []) 0 (
        cons (node (2 ∷ []) 0 (cons (node (3 ∷ []) 7 nil) (cons (node (4 ∷ []) 8 nil) nil)))
          (cons (node (5 ∷ []) 9 nil) nil)))
      nil)

five_added : add_seq 0 two_sequences (1 ∷ 5 ∷ []) 9 ≡ some (true, three_sequences)
unfolding add_seq
five_added = refl

add_seq-IsAnswer_example : IsAnswer 0 two_sequences (1 ∷ 5 ∷ []) 9 true three_sequences
add_seq-IsAnswer_example =
    add_seq-IsAnswer 0 two_sequences 1 (5 ∷ []) 9 true three_sequences two_sequences-IsTrie
      (omega arith) five_added

one_not_two : ◌≢◌ {A = ℕ} 1 2
one_not_two e = omega (arith, e)

query-wraps_example : query (replicate 253 0 ++ 1 ∷ []) (replicate 253 0 ++ 2 ∷ []) ≡ same
query-wraps_example = query-wraps (replicate 253 0) 1 2 [] [] one_not_two refl
