-- ===== src/VSet/Erase/Difference.antt =====
-- src/VSet.tcc, erase(const VSet &): the whole loop removes exactly the second set.
use rustmc.Prelude.{
  trichotomy, ℕ, zero, suc, ◌+◌, ◌-◌, ◌≤◌, ◌<◌, ◌≡◌, refl, subst, inl, inr, true, false, ◌&&◌, not,
  ltb, List, [], ◌∷◌, ◌++◌, arith, length, ap, sym, ◌∙◌,
}
use rustmc.VSet.Order.{IsSorted, elem}
use rustmc.VSet.{VSet, EraseState, sweep_round, sweep, sweep_end, erase_set}
use rustmc.VSet.Merge.{rev_onto, length-rev_onto}
use rustmc.VSet.Erase.{
  diff, diff-From, elem-diff, length-diff-le, IsAt, length-window, sweep_end-IsAt, in_range,
  round_eq, round_gt, slide, round_lt,
}

sweep_stops :
    (fuel : ℕ) (s : VSet) (st : EraseState)
    → (ltb st.a (length st.vs) && ltb st.b (length s)) ≡ false
    → sweep fuel s st ≡ st
unfolding sweep
sweep_stops zero s st e = refl
sweep_stops (suc fuel) s st e = rw e

sweep_goes :
    (fuel : ℕ) (s : VSet) (st : EraseState)
    → (ltb st.a (length st.vs) && ltb st.b (length s)) ≡ true
    → sweep (suc fuel) s st ≡ sweep fuel s (sweep_round s st)
unfolding sweep
sweep_goes fuel s st e = rw e

-- The loop over `rest` and `others` leaves `kept` and the difference.
Leaves : ℕ → List ℕ → List ℕ → List ℕ → List ℕ → EraseState → Type 0
Leaves fuel kept rest passed others st =
    sweep_end (sweep fuel (rev_onto passed others) st)
    ≡ (rev_onto kept (diff rest others), st.erased + (length rest - length (diff rest others)))

ends :
    (fuel : ℕ) (kept w rest passed others : List ℕ) (st : EraseState)
    → IsAt kept w rest passed st
    → (ltb st.a (length st.vs) && ltb st.b (length (rev_onto passed others))) ≡ false
    → diff rest others ≡ rest
    → Leaves fuel kept rest passed others st
unfolding Leaves
ends fuel kept w rest passed others st h e d =
    ap sweep_end (sweep_stops fuel (rev_onto passed others) st e)
    ∙ sweep_end-IsAt kept w rest passed st h
    ∙ ground (arith, d, ap length d)

module _ (x y : ℕ) (xs ys : List ℕ) where
  diff_eq : x ≡ y → diff (x ∷ xs) (y ∷ ys) ≡ diff xs ys
  unfolding diff
  diff_eq h = ground arith

  diff_lt : x < y → diff (x ∷ xs) (y ∷ ys) ≡ x ∷ diff xs (y ∷ ys)
  unfolding diff
  diff_lt h = ground arith

  diff_gt : y < x → diff (x ∷ xs) (y ∷ ys) ≡ diff (x ∷ xs) ys
  unfolding diff
  diff_gt h = ground arith

nil_diff : (ys : List ℕ) → diff [] ys ≡ []
unfolding diff
nil_diff ys = refl

diff-nil : (xs : List ℕ) → diff xs [] ≡ xs
unfolding diff
diff-nil [] = refl
diff-nil (x ∷ xs) = refl

sweep-Leaves :
    (fuel : ℕ) (kept w rest passed others : List ℕ) (st : EraseState)
    → length rest + length others ≤ fuel
    → IsAt kept w rest passed st
    → Leaves fuel kept rest passed others st
unfolding Leaves rev_onto
sweep-Leaves fuel kept w [] passed others st room h =
    ends fuel kept w [] passed others st h
      (ground (arith, h.0, ap length h.0, h.1, length-window kept w [])) (nil_diff others)
sweep-Leaves fuel kept w (x ∷ xs) passed [] st room h =
    ends fuel kept w (x ∷ xs) passed [] st h (ground (arith, h.2, length-rev_onto passed []))
      (diff-nil (x ∷ xs))
sweep-Leaves zero kept w (x ∷ xs) passed (y ∷ ys) st room h = absurd (omega arith)
sweep-Leaves (suc fuel) kept w (x ∷ xs) passed (y ∷ ys) st room h =
    ap sweep_end
      (sweep_goes fuel (rev_onto passed (y ∷ ys)) st (in_range kept w xs passed ys x y st h))
    ∙ elim (trichotomy x y) [
      | inl e ↦
          let r = round_lt kept xs passed ys x y st e w h in
          sweep-Leaves fuel (x ∷ kept) (slide kept xs passed ys x y st e w x) xs passed (y ∷ ys) _
            (omega arith) r.0
          ∙ ground (arith, r.1, diff_lt x y xs ys e, length-diff-le xs (y ∷ ys))
      | inr (inl e) ↦
          let r = round_eq kept w xs passed ys x y st h e in
          sweep-Leaves fuel kept (w ++ x ∷ []) xs (y ∷ passed) ys _ (omega arith) r.0
          ∙ ground (arith, r.1, diff_eq x y xs ys e, length-diff-le xs ys)
      | inr (inr e) ↦
          let r = round_gt kept w xs passed ys x y st h e in
          sweep-Leaves fuel kept w (x ∷ xs) (y ∷ passed) ys _ (omega arith) r.0
          ∙ ground (arith, r.1, diff_gt x y xs ys e)
    ]

abbrev pub IsDifference : VSet → VSet → VSet × ℕ → Type 0
IsDifference s t r =
    IsSorted r.0
    × ((v : ℕ) → elem v r.0 ≡ (elem v s && not (elem v t)))
    × (length r.0 + r.1 ≡ length s)

diff-IsDifference :
    (s t : VSet)
    → IsSorted s
    → IsSorted t
    → IsDifference s t (diff s t, length s - length (diff s t))
diff-IsDifference s t f g =
    (diff-From 0 s t f, λ v. elem-diff v 0 0 s t f g, omega (arith, length-diff-le s t))

-- On sorted vectors the bulk deletion leaves the sorted difference, and returns by how much the set has shrunk.
pub erase_set-IsDifference :
    (s t : VSet) → IsSorted s → IsSorted t → IsDifference s t (erase_set s t)
unfolding erase_set Leaves rev_onto elem
erase_set-IsDifference [] t f g = (tt, λ v. refl, omega arith)
erase_set-IsDifference (x ∷ xs) [] f g = (f, λ v. ground arith, omega arith)
erase_set-IsDifference (x ∷ xs) (y ∷ ys) f g =
    subst (IsDifference (x ∷ xs) (y ∷ ys)) (sym whole) (diff-IsDifference (x ∷ xs) (y ∷ ys) f g)
  where
    start : EraseState
    start = record { vs = x ∷ xs; a = 0; b = 0; a_mov = 0; erased = 0 }

    whole :
        sweep_end (sweep (length (x ∷ xs) + length (y ∷ ys)) (y ∷ ys) start)
        ≡ (diff (x ∷ xs) (y ∷ ys), length (x ∷ xs) - length (diff (x ∷ xs) (y ∷ ys)))
    whole =
        sweep-Leaves (length (x ∷ xs) + length (y ∷ ys)) [] [] (x ∷ xs) [] (y ∷ ys) start
          (omega arith) (refl, omega arith, refl, refl)
        ∙ ground arith
