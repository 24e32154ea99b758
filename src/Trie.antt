-- ===== src/Trie.antt =====
-- src/Trie.hpp: a prefix tree from sequences of values to payloads. A node's children are kept in the
-- order of the first values of their labels, so the walks of `std::lower_bound` over them stop at the
-- first child that is not below. The pointers of the source form a tree, which is the model; where the
-- source changes a node in place, its parent is given the changed node under the same first value.
-- An abort is the answer `none`. The loops over nodes take the length of the sequence as their fuel:
-- each round goes past a label, which is not empty.
pub mod Find
pub mod Query
pub mod Lookup
pub mod Insert
pub mod Split
pub mod Add
pub mod Laws
use rustmc.Prelude.{
  ℕ, zero, suc, ◌+◌, ◌-◌, ◌%◌, ◌^◌, min, Bool, true, false, List, [], ◌∷◌, Option, none, some, ltb,
  leb, ◌==◌, ◌||◌, if◌then◌else◌, ◌>>=◌, ℤ, pos, negsuc, length, take, drop,
}

-- A node: its label, its payload, its children.
mutual
  pub data Node (P : Type 0) : Type 0 where
    node : List ℕ → P → Nodes P → Node P

  pub data Nodes (P : Type 0) : Type 0 where
    nil : Nodes P
    cons : Node P → Nodes P → Nodes P

-- `label()[0]`; only the root has an empty label, and it is nobody's child.
abbrev first : List ℕ → ℕ
first [] = 0
first (x ∷ xs) = x

-- How many values two sequences have in common at their start.
pub common : List ℕ → List ℕ → ℕ
common [] ys = 0
common (x ∷ xs) [] = 0
common (x ∷ xs) (y ∷ ys) = let rest = suc (common xs ys) in if x == y then rest else 0

-- The results of a query by their names; any other is told by its number, as the `size_t` that it is
-- converted to as an index.
pub data QueryResult : Type 0 where
  same string_is_prefix label_is_prefix dont_match : QueryResult
  have_common_part : ℕ → QueryResult

-- The conversion of a length to the enumeration, whose numbers are an `int8_t`: -3, -2 and -1 are
-- `same`, `string_is_prefix` and `label_is_prefix`.
as_result : ℕ → QueryResult
as_result i =
    if i % 256 == 0
    then dont_match
    else if ltb (i % 256) 128
    then have_common_part (i % 256)
    else if i % 256 == 253
    then same
    else if i % 256 == 254
    then string_is_prefix
    else if i % 256 == 255
    then label_is_prefix
    else have_common_part (2 ^ 64 - 256 + i % 256)

pub query : List ℕ → List ℕ → QueryResult
unfolding common as_result
query s label =
    if common s label == min (length s) (length label)
    then (if length s == length label
        then same
        else if common s label == length s
        then string_is_prefix
        else label_is_prefix)
    else as_result (common s label)

module _ {P : Type 0} where
  abbrev label : Node P → List ℕ
  label (node l d ks) = l

  abbrev data_of : Node P → P
  data_of (node l d ks) = d

  abbrev pub children : Node P → Nodes P
  children (node l d ks) = ks

  abbrev set_node_data : Node P → P → Node P
  set_node_data (node l d ks) p = node l p ks

  abbrev set_children : Node P → Nodes P → Node P
  set_children (node l d ks) ns = node l d ns

  pub get_edge : Nodes P → ℕ → Option (Node P)
  get_edge nil id = none
  get_edge (cons n ns) id =
      let rest = get_edge ns id in
      if ltb (first (label n)) id then rest else if first (label n) == id then some n else none

  pub add_edge : Nodes P → Node P → Nodes P
  add_edge nil n = cons n nil
  add_edge (cons m ms) n =
      let rest = cons m (add_edge ms n) in
      if ltb (first (label m)) (first (label n)) then rest else cons n (cons m ms)

  -- The child at the lower bound of the first value is replaced.
  pub set_edge : Nodes P → Node P → Option (Nodes P)
  set_edge nil n = none
  set_edge (cons m ms) n =
      let rest = set_edge ms n >>= λ r. some (cons m r) in
      if ltb (first (label m)) (first (label n)) then rest else some (cons n ms)

  -- The node that takes the place of a child: the first `index` values of its label, with `empty` as
  -- the payload, and the child below it.
  split_edge : P → Nodes P → ℕ → ℕ → Option (Node P)
  unfolding get_edge add_edge
  split_edge empty cs id index = get_edge cs id >>= λ e.
      if index == 0 || leb (length (label e)) index
      then none
      else some (
          node (take index (label e)) empty
            (add_edge nil (node (drop index (label e)) (data_of e) (children e))))

  -- What is done at the child that starts with the first value of the sequence, given the answer of
  -- the rounds from this child on.
  add_at :
      P
      → Nodes P
      → Node P
      → List ℕ
      → P
      → Option (Bool × Nodes P)
      → QueryResult
      → Option (Bool × Nodes P)
  unfolding split_edge set_edge
  add_at empty cs n s d deeper same = some (false, cs)
  add_at empty cs n s d deeper string_is_prefix = split_edge empty cs (first s) (length s) >>= λ m.
      set_edge cs (set_node_data m d) >>= λ r. some (true, r)
  add_at empty cs n s d deeper dont_match = none
  add_at empty cs n s d deeper label_is_prefix =
      deeper >>= λ p. set_edge cs (set_children n p.1) >>= λ r. some (p.0, r)
  add_at empty cs n s d deeper (have_common_part i) = split_edge empty cs (first s) i >>= λ m.
      set_edge cs (set_children m (add_edge (children m) (node (drop i s) d nil))) >>= λ r.
      some (true, r)

  -- The children of a node after the insertion of a sequence that is not empty, and whether it took
  -- place.
  pub add_below : ℕ → P → Nodes P → List ℕ → P → Option (Bool × Nodes P)
  unfolding add_at query
  add_below zero empty cs s d = none
  add_below (suc fuel) empty cs s d = elim (get_edge cs (first s)) [
    | none ↦ some (true, add_edge cs (node s d nil))
    | some n ↦
        add_at empty cs n s d (add_below fuel empty (children n) (drop (length (label n)) s) d)
          (query s (label n))
  ]

  -- `empty` is the payload that `Payload()` makes.
  unfoldable pub add_seq : P → Node P → List ℕ → P → Option (Bool × Node P)
  unfolding add_below
  add_seq empty root [] d = some (false, root)
  add_seq empty root (x ∷ s) d = add_below (length (x ∷ s)) empty (children root) (x ∷ s) d >>= λ p.
      some (p.0, set_children root p.1)

  look_at : Node P → Option (Option P) → QueryResult → Option (Option P)
  look_at n deeper same = some (some (data_of n))
  look_at n deeper string_is_prefix = some none
  look_at n deeper dont_match = none
  look_at n deeper label_is_prefix = deeper
  look_at n deeper (have_common_part i) = some none

  pub look_below : ℕ → Nodes P → List ℕ → Option (Option P)
  unfolding look_at query get_edge
  look_below zero cs s = none
  look_below (suc fuel) cs s = elim (get_edge cs (first s)) [
    | none ↦ some none
    | some n ↦
        look_at n (look_below fuel (children n) (drop (length (label n)) s)) (query s (label n))
  ]

  -- The payload of a sequence, if it has one; a pointer in the source.
  unfoldable pub lookup : Node P → List ℕ → Option (Option P)
  unfolding look_below
  lookup root [] = some (some (data_of root))
  lookup root (x ∷ s) = look_below (length (x ∷ s)) (children root) (x ∷ s)
