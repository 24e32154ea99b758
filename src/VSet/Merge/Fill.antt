-- ===== src/VSet/Merge/Fill.antt =====
-- src/VSet.tcc, insert(const VSet &): the loop fills the vector with the merge of its two prefixes.
use rustmc.Prelude.{
  trichotomy, ℕ, zero, suc, ◌+◌, ◌-◌, ◌≤◌, ◌<◌, ◌≡◌, refl, inl, inr, List, [], ◌∷◌, arith, length,
  set, drop, ap, sym, ◌∙◌,
}
use rustmc.VSet.Merge.{
  rev_onto, merge, length-merge_left, drop-set, get_or-top, set_past, fill_only_s, fill_only_a,
  fill_from_s, fill_from_both, fill_from_a,
}
use rustmc.VSet.{fill}

module _ (x y : ℕ) (xs ys : List ℕ) where
  merge_lt : x < y → merge (x ∷ xs) (y ∷ ys) ≡ y ∷ merge (x ∷ xs) ys
  unfolding merge
  merge_lt h = ground arith

  merge_eq : x ≡ y → merge (x ∷ xs) (y ∷ ys) ≡ x ∷ merge xs ys
  unfolding merge
  merge_eq h = ground arith

  merge_gt : y < x → merge (x ∷ xs) (y ∷ ys) ≡ x ∷ merge xs (y ∷ ys)
  unfolding merge
  merge_gt h = ground arith

merge-nil : (xs : List ℕ) → merge xs [] ≡ xs
unfolding merge
merge-nil [] = refl
merge-nil (x ∷ xs) = refl

tail_write :
    (m rest : List ℕ) (i n v : ℕ)
    → n ≤ i
    → i - n < length rest
    → rev_onto m (drop (i - n) (set rest (i - n) v)) ≡ rev_onto (v ∷ m) (drop (suc i - n) rest)
unfolding rev_onto
tail_write m rest i n v h k =
    ap (rev_onto m) (drop-set (i - n) rest v k)
    ∙ ap (λ (j : ℕ). rev_onto m (v ∷ drop j rest)) {x = suc (i - n)} (omega arith)

-- After the loop, the first i places hold the merge, and what lay beyond is untouched.
abbrev pub Fills : ℕ → List ℕ → List ℕ → List ℕ → List ℕ → Type 0
Fills i ra rb rest rest_s =
    fill i (rev_onto ra rest) (rev_onto rb rest_s) (length ra) (length rb)
    ≡ rev_onto (merge ra rb) (drop (i - length ra) rest)

module _ (i : ℕ) (ra rb rest rest_s : List ℕ) (size : length (merge ra rb) ≡ i) where
  put_s :
      (y : ℕ)
      → i < length ra + length rest
      → Fills i ra rb (set rest (i - length ra) y) (y ∷ rest_s)
      → fill i (set (rev_onto ra rest) i y) (rev_onto rb (y ∷ rest_s)) (length ra) (length rb)
        ≡ rev_onto (y ∷ merge ra rb) (drop (suc i - length ra) rest)
  put_s y room ih = rw (set_past ra rest i y (omega (arith, length-merge_left ra rb))) (
      ih
      ∙ tail_write (merge ra rb) rest i (length ra) y (omega (arith, length-merge_left ra rb))
          (omega (arith, length-merge_left ra rb)))

  put_a :
      (x : ℕ)
      → i ≤ length ra + length rest
      → Fills i ra rb (set (x ∷ rest) (i - length ra) x) rest_s
      → fill i (set (rev_onto ra (x ∷ rest)) i x) (rev_onto rb rest_s) (length ra) (length rb)
        ≡ rev_onto (x ∷ merge ra rb) (drop (suc i - suc (length ra)) rest)
  put_a x room ih = rw (set_past ra (x ∷ rest) i x (omega (arith, length-merge_left ra rb))) (
      ih
      ∙ tail_write (merge ra rb) (x ∷ rest) i (length ra) x (omega (arith, length-merge_left ra rb))
          (omega (arith, length-merge_left ra rb))
      ∙ ap (λ (j : ℕ). rev_onto (x ∷ merge ra rb) (drop j (x ∷ rest))) shift)
    where
      shift : suc i - length ra ≡ suc (suc i - suc (length ra))
      shift = omega (arith, length-merge_left ra rb)

length-set : (xs : List ℕ) (i v : ℕ) → length (set xs i v) ≡ length xs
length-set [] i v = refl
length-set (x ∷ xs) zero v = refl
length-set (x ∷ xs) (suc i) v = ap suc (length-set xs i v)

zero_round : (rest rest_s : List ℕ) → Fills 0 [] [] rest rest_s
unfolding fill rev_onto merge
zero_round rest rest_s = refl

merge_nil : (y : ℕ) (rb : List ℕ) → y ∷ merge [] rb ≡ merge [] (y ∷ rb)
unfolding merge
merge_nil y rb = refl

length-merge-nil : (y : ℕ) (rb : List ℕ) → suc (length (merge [] rb)) ≡ length (merge [] (y ∷ rb))
unfolding merge
length-merge-nil y rb = refl

merge_nil_suc : (y : ℕ) (rb : List ℕ) → length (merge [] (y ∷ rb)) ≡ 0 → suc (length rb) ≡ 0
unfolding merge
merge_nil_suc y rb e = e

merge_nil_nil : {i : ℕ} → length (merge [] []) ≡ suc i → 0 ≡ suc i
unfolding merge
merge_nil_nil e = e

pred_eq : {m n : ℕ} → suc m ≡ suc n → m ≡ n
pred_eq e = omega arith

pub fill-merge :
    (i : ℕ) (ra rb rest rest_s : List ℕ)
    → length (merge ra rb) ≡ i
    → i ≤ length ra + length rest
    → Fills i ra rb rest rest_s
unfolding rev_onto
fill-merge zero [] [] rest rest_s e room = zero_round rest rest_s
fill-merge zero [] (y ∷ rb) rest rest_s e room = absurd (omega (arith, merge_nil_suc y rb e))
fill-merge zero (x ∷ ra) rb rest rest_s e room =
    absurd (omega (arith, length-merge_left (x ∷ ra) rb))
fill-merge (suc i) [] [] rest rest_s e room = absurd (omega (arith, merge_nil_nil e))
fill-merge (suc i) [] (y ∷ rb) rest rest_s e room =
    let size : length (merge [] rb) ≡ i = pred_eq (length-merge-nil y rb ∙ e) in
    fill_only_s i (rev_onto [] rest) (rev_onto (y ∷ rb) rest_s) (length rb) y
      (get_or-top y rb rest_s)
    ∙ put_s i [] rb rest rest_s size y (omega arith) (
        fill-merge i [] rb (set rest (i - 0) y) (y ∷ rest_s) size
          (omega (arith, length-set rest (i - 0) y)))
    ∙ ap (λ (m : List ℕ). rev_onto m (drop (suc i - 0) rest)) (merge_nil y rb)
fill-merge (suc i) (x ∷ ra) [] rest rest_s e room =
    let size : length (merge ra []) ≡ i = pred_eq (
      ap (λ (m : List ℕ). suc (length m)) (merge-nil ra)
      ∙ sym (ap length (merge-nil (x ∷ ra)))
      ∙ e) in
    fill_only_a i (rev_onto (x ∷ ra) rest) rest_s (length ra) x (get_or-top x ra rest)
    ∙ put_a i ra [] rest rest_s size x (omega arith) (
        fill-merge i ra [] (set (x ∷ rest) (i - length ra) x) rest_s size
          (omega (arith, length-set (x ∷ rest) (i - length ra) x)))
    ∙ ap (λ (m : List ℕ). rev_onto m (drop (suc i - suc (length ra)) rest))
        (ap (λ (m : List ℕ). x ∷ m) (merge-nil ra) ∙ sym (merge-nil (x ∷ ra)))
fill-merge (suc i) (x ∷ ra) (y ∷ rb) rest rest_s e room = elim (trichotomy x y) [
  | inl h ↦
      let size : length (merge (x ∷ ra) rb) ≡ i =
        pred_eq (sym (ap length (merge_lt x y ra rb h)) ∙ e) in
      fill_from_s i (rev_onto (x ∷ ra) rest) (rev_onto (y ∷ rb) rest_s) (length ra) (length rb) x y
        (get_or-top x ra rest) (get_or-top y rb rest_s) h
      ∙ put_s i (x ∷ ra) rb rest rest_s size y (omega arith) (
          fill-merge i (x ∷ ra) rb (set rest (i - length (x ∷ ra)) y) (y ∷ rest_s) size
            (omega (arith, length-set rest (i - length (x ∷ ra)) y)))
      ∙ ap (λ (m : List ℕ). rev_onto m (drop (suc i - suc (length ra)) rest))
          (sym (merge_lt x y ra rb h))
  | inr (inl h) ↦
      let size : length (merge ra rb) ≡ i = pred_eq (sym (ap length (merge_eq x y ra rb h)) ∙ e) in
      fill_from_both i (rev_onto (x ∷ ra) rest) (rev_onto (y ∷ rb) rest_s) (length ra) (length rb) x
        y (get_or-top x ra rest) (get_or-top y rb rest_s) h
      ∙ put_a i ra rb rest (y ∷ rest_s) size x (omega arith) (
          fill-merge i ra rb (set (x ∷ rest) (i - length ra) x) (y ∷ rest_s) size
            (omega (arith, length-set (x ∷ rest) (i - length ra) x)))
      ∙ ap (λ (m : List ℕ). rev_onto m (drop (suc i - suc (length ra)) rest))
          (sym (merge_eq x y ra rb h))
  | inr (inr h) ↦
      let size : length (merge ra (y ∷ rb)) ≡ i =
        pred_eq (sym (ap length (merge_gt x y ra rb h)) ∙ e) in
      fill_from_a i (rev_onto (x ∷ ra) rest) (rev_onto (y ∷ rb) rest_s) (length ra) (length rb) x y
        (get_or-top x ra rest) (get_or-top y rb rest_s) h
      ∙ put_a i ra (y ∷ rb) rest rest_s size x (omega arith) (
          fill-merge i ra (y ∷ rb) (set (x ∷ rest) (i - length ra) x) rest_s size
            (omega (arith, length-set (x ∷ rest) (i - length ra) x)))
      ∙ ap (λ (m : List ℕ). rev_onto m (drop (suc i - suc (length ra)) rest))
          (sym (merge_gt x y ra rb h))
]
