-- ===== src/VSet/Merge.antt =====
-- src/VSet.tcc, insert(const VSet &): the in-place loop, against a merge of two lists.
-- A prefix of a vector is held as its reverse, so that the loop's last entry is the list's head.
pub mod Fill
pub mod Union
pub mod Insert
use rustmc.Prelude.{
  ℕ, zero, suc, ◌+◌, ◌-◌, ◌≤◌, ◌<◌, ◌≡◌, refl, Bool, true, false, not, ◌&&◌, ◌||◌, List, [], ◌∷◌,
  ◌++◌, ◌==◌, ltb, if◌then◌else◌, arith, length, get_or, set, drop, sym, ap, ◌∙◌,
}
use rustmc.VSet.Order.{From, IsSorted, elem}
use rustmc.VSet.{VSet, fill}

unfoldable pub rev_onto : List ℕ → List ℕ → List ℕ
rev_onto [] ys = ys
rev_onto (x ∷ xs) ys = rev_onto xs (x ∷ ys)

-- Two decreasing lists, merged into one without duplicates.
pub merge : List ℕ → List ℕ → List ℕ
merge [] bs = bs
merge (a ∷ as') [] = a ∷ as'
merge (a ∷ as') (b ∷ bs) =
    let from_b = merge (a ∷ as') bs in
    let from_both = merge as' bs in
    let from_a = merge as' (b ∷ bs) in
    if ltb a b then b ∷ from_b else if a == b then a ∷ from_both else a ∷ from_a

pub length-rev_onto : (xs ys : List ℕ) → length (rev_onto xs ys) ≡ length xs + length ys
unfolding rev_onto
length-rev_onto [] ys = omega arith
length-rev_onto (x ∷ xs) ys = omega (arith, length-rev_onto xs (x ∷ ys))

pub get_or-rev_onto :
    (xs ys : List ℕ) (k : ℕ) → get_or (rev_onto xs ys) (length xs + k) 0 ≡ get_or ys k 0
unfolding rev_onto
get_or-rev_onto [] ys k = ap (λ (i : ℕ). get_or ys i 0) (omega arith)
get_or-rev_onto (x ∷ xs) ys k =
    ap (λ (i : ℕ). get_or (rev_onto xs (x ∷ ys)) i 0) (omega arith)
    ∙ get_or-rev_onto xs (x ∷ ys) (suc k)

pub set-rev_onto :
    (xs ys : List ℕ) (k v : ℕ) → set (rev_onto xs ys) (length xs + k) v ≡ rev_onto xs (set ys k v)
unfolding rev_onto
set-rev_onto [] ys k v = ap (λ (i : ℕ). set ys i v) (omega arith)
set-rev_onto (x ∷ xs) ys k v =
    ap (λ (i : ℕ). set (rev_onto xs (x ∷ ys)) i v) (omega arith)
    ∙ set-rev_onto xs (x ∷ ys) (suc k) v

drop-set : (k : ℕ) (ys : List ℕ) (v : ℕ) → k < length ys → drop k (set ys k v) ≡ v ∷ drop (suc k) ys
drop-set k [] v h = absurd (omega arith)
drop-set zero (y ∷ ys) v h = refl
drop-set (suc k) (y ∷ ys) v h = drop-set k ys v (omega arith)

length-merge_left : (as' bs : List ℕ) → length as' ≤ length (merge as' bs)
unfolding merge
length-merge_left [] bs = omega arith
length-merge_left (a ∷ as') [] = omega arith
length-merge_left (a ∷ as') (b ∷ bs) = ground (
  arith,
  length-merge_left (a ∷ as') bs,
  length-merge_left as' bs,
  length-merge_left as' (b ∷ bs),
)

pub get_or-top : (x : ℕ) (xs ys : List ℕ) → get_or (rev_onto (x ∷ xs) ys) (length xs) 0 ≡ x
unfolding rev_onto
get_or-top x xs ys =
    ap (λ (i : ℕ). get_or (rev_onto xs (x ∷ ys)) i 0) (omega arith) ∙ get_or-rev_onto xs (x ∷ ys) 0

set_past :
    (xs ys : List ℕ) (i v : ℕ)
    → length xs ≤ i
    → set (rev_onto xs ys) i v ≡ rev_onto xs (set ys (i - length xs) v)
set_past xs ys i v h =
    ap (λ (j : ℕ). set (rev_onto xs ys) j v) (omega arith) ∙ set-rev_onto xs ys (i - length xs) v

-- The branches of one round, at known last entries.
module _ (i : ℕ) (vs s : List ℕ) where
  fill_only_s :
      (nb b : ℕ) → get_or s nb 0 ≡ b → fill (suc i) vs s 0 (suc nb) ≡ fill i (set vs i b) s 0 nb
  unfolding fill
  fill_only_s nb b eb = rw (suc_pred nb, eb)
    where
      suc_pred : (n : ℕ) → suc n - 1 ≡ n
      suc_pred n = omega arith

  module _ (na nb a b : ℕ) (ea : get_or vs na 0 ≡ a) (eb : get_or s nb 0 ≡ b) where
    fill_from_s : a < b → fill (suc i) vs s (suc na) (suc nb) ≡ fill i (set vs i b) s (suc na) nb
    unfolding fill
    fill_from_s p = ground arith

    fill_from_both : a ≡ b → fill (suc i) vs s (suc na) (suc nb) ≡ fill i (set vs i a) s na nb
    unfolding fill
    fill_from_both e = ground arith

    fill_from_a : b < a → fill (suc i) vs s (suc na) (suc nb) ≡ fill i (set vs i a) s na (suc nb)
    unfolding fill
    fill_from_a p = ground arith

  fill_only_a :
      (na a : ℕ) → get_or vs na 0 ≡ a → fill (suc i) vs s (suc na) 0 ≡ fill i (set vs i a) s na 0
  unfolding fill
  fill_only_a na a ea = ground arith
