-- ===== src/VSet/Merge/Insert.antt =====
-- src/VSet.tcc, insert(const VSet &): every path of the bulk insertion yields the sorted union.
use rustmc.Prelude.{
  ℕ, zero, suc, ◌+◌, ◌-◌, ◌≡◌, refl, ◌||◌, List, [], ◌∷◌, ◌++◌, arith, length, length-replicate,
  replicate, get_or, drop, ap, sym, ◌∙◌,
}
use mathlib.Core.List.{append-nil}
use rustmc.VSet.Order.{IsSorted, elem}
use rustmc.VSet.Single.{insert-IsSorted, elem-insert, length-insert}
use rustmc.VSet.{VSet, fill, grow_fill, insert_set}
use rustmc.VSet.Merge.{rev_onto, merge, length-rev_onto}
use rustmc.VSet.Merge.Fill.{fill-merge}
use rustmc.VSet.Merge.Union.{
  Under-mono, merge-Under, elem-merge, elem-rev_onto, rev_onto-From, rev_onto-Under, fresh,
  fresh-rev_onto, fresh-same, count_new-fresh, length-merge, rev_onto_twice, drop_all,
}

abbrev pub IsUnion : VSet → VSet → VSet × ℕ → Type 0
IsUnion s t r =
    IsSorted r.0 × ((v : ℕ) → elem v r.0 ≡ (elem v s || elem v t)) × (length r.0 ≡ length s + r.1)

rev : List ℕ → List ℕ
rev xs = rev_onto xs []

elem-rev : (v : ℕ) (xs : List ℕ) → elem v (rev xs) ≡ elem v xs
unfolding rev elem
elem-rev v xs = ground (arith, elem-rev_onto v xs [])

fresh-rev : (s t : VSet) → fresh (rev s) (rev t) ≡ fresh s t
unfolding rev fresh
fresh-rev s t =
    fresh-rev_onto (rev_onto s []) t []
    ∙ add-zero-eq
    ∙ fresh-same (rev_onto s []) s t (λ v. elem-rev v s)
  where
    add-zero-eq : fresh (rev_onto s []) t + 0 ≡ fresh (rev_onto s []) t
    add-zero-eq = omega arith

length-rev : (s : VSet) → length (rev s) ≡ length s
unfolding rev
length-rev s = omega (arith, length-rev_onto s [])

module _ (s t : VSet) (f : IsSorted s) (g : IsSorted t) where
  union_list : List ℕ
  union_list = rev_onto (merge (rev s) (rev t)) []

  length-merge-rev : length (merge (rev s) (rev t)) ≡ length s + fresh s t
  unfolding rev
  length-merge-rev =
      let (hi, u) = rev_onto-Under 0 s [] f tt in
      let (hi', v) = rev_onto-Under 0 t [] g tt in
      omega (arith, length-merge hi hi' (rev s) (rev t) u v, length-rev s, fresh-rev s t)

  union_list-IsSorted : IsSorted union_list
  unfolding union_list rev
  union_list-IsSorted =
      let (hi, u) = rev_onto-Under 0 s [] f tt in
      let (hi', v) = rev_onto-Under 0 t [] g tt in
      rev_onto-From (hi + hi') (merge (rev s) (rev t)) []
        (merge-Under (hi + hi') (rev s) (rev t)
          (Under-mono {hi = hi} {hi' = hi + hi'} (rev s) (omega arith) u)
          (Under-mono {hi = hi'} {hi' = hi + hi'} (rev t) (omega arith) v))
        tt

  elem-union_list : (v : ℕ) → elem v union_list ≡ (elem v s || elem v t)
  unfolding union_list elem
  elem-union_list v = ground (
    arith,
    elem-rev_onto v (merge (rev s) (rev t)) [],
    elem-merge v (rev s) (rev t),
    elem-rev v s,
    elem-rev v t,
  )

  -- The loop over the grown vector ends in the union, whatever the new places held.
  fill-union_list :
      (n d : ℕ)
      → fresh s t ≡ n
      → fill (length s + n) (s ++ replicate n d) t (length s) (length t) ≡ union_list
  unfolding union_list rev fill rev_onto
  fill-union_list n d e = cc (
    big,
    rev_onto_twice s [] (replicate n d),
    rev_onto_twice t [] [],
    append-nil t,
    length-rev s,
    length-rev t,
    drop_all (length s + n - length (rev s)) (replicate n d)
        (omega (arith, length-rev s, length-replicate n d)),
  )
    where
      big :
          fill
            (length s + n)
            (rev_onto (rev_onto s []) (replicate n d))
            (rev_onto (rev_onto t []) [])
            (length (rev_onto s []))
            (length (rev_onto t []))
          ≡ rev_onto
              (merge (rev_onto s []) (rev_onto t []))
              (drop (length s + n - length (rev_onto s [])) (replicate n d))
      big =
          fill-merge (length s + n) (rev s) (rev t) (replicate n d) []
            (omega (arith, length-merge-rev)) (omega (arith, length-rev s, length-replicate n d))

  union_list-IsUnion : (n : ℕ) → fresh s t ≡ n → IsUnion s t (union_list, n)
  unfolding union_list
  union_list-IsUnion n e = (
    union_list-IsSorted,
    elem-union_list,
    omega (arith, length-rev_onto (merge (rev s) (rev t)) [], length-merge-rev),
  )

fresh_none : (v : ℕ) (s t : VSet) → fresh s t ≡ 0 → (elem v s || elem v t) ≡ elem v s
unfolding fresh elem
fresh_none v s [] e = ground arith
fresh_none v s (y ∷ ys) e = ground (arith, fresh_none v s ys, elem_eq v y s)
  where
    elem_eq : (v y : ℕ) (s : VSet) → v ≡ y → elem v s ≡ elem y s
    elem_eq v y s h = ap (λ (w : ℕ). elem w s) h

grow_fill-IsUnion :
    (n : ℕ) (s t : VSet) → IsSorted s → IsSorted t → fresh s t ≡ n → IsUnion s t (grow_fill n s t)
unfolding grow_fill
grow_fill-IsUnion zero s t f g e = (f, λ v. sym (fresh_none v s t e), omega arith)
grow_fill-IsUnion (suc n) s t f g e =
    rw (fill-union_list s t f g (suc n) (get_or s 0 0) e) (union_list-IsUnion s t f g (suc n) e)

-- On sorted vectors a bulk insertion gives the sorted union, and returns by how much the set has grown.
pub insert_set-IsUnion : (s t : VSet) → IsSorted s → IsSorted t → IsUnion s t (insert_set s t)
unfolding insert_set elem
insert_set-IsUnion [] t f g = (g, λ v. refl, omega arith)
insert_set-IsUnion (x ∷ xs) [] f g = (f, λ v. ground arith, omega arith)
insert_set-IsUnion (x ∷ xs) (y ∷ []) f g = (
  insert-IsSorted y (x ∷ xs) f,
  λ v. ground (arith, elem-insert v y (x ∷ xs) f),
  (length-insert y (x ∷ xs) f).0,
)
insert_set-IsUnion (x ∷ xs) (y ∷ z ∷ t) f g =
    rw (count_new-fresh 0 0 (x ∷ xs) (y ∷ z ∷ t) f g)
      (grow_fill-IsUnion (fresh (x ∷ xs) (y ∷ z ∷ t)) (x ∷ xs) (y ∷ z ∷ t) f g refl)
