-- ===== src/VSet/Erase.antt =====
-- src/VSet.tcc, erase(const VSet &): the in-place deletion against the difference of two lists.
pub mod Difference
use rustmc.Prelude.{
  ℕ, zero, suc, ◌+◌, ◌-◌, ◌≤◌, ◌<◌, ◌≡◌, refl, Bool, true, false, ◌&&◌, ◌||◌, not, ltb,
  if◌then◌else◌, List, [], ◌∷◌, ◌++◌, ◌==◌, arith, length, length-append, get_or, set, take, ap,
  sym, ◌∙◌,
}
use mathlib.Core.List.{append-nil, append_assoc}
use rustmc.VSet.Order.{From, IsSorted, elem, From-mono, elem_below}
use rustmc.VSet.{VSet, EraseState, sweep_round, sweep, move_down, sweep_end, erase_set}
use rustmc.VSet.Merge.{rev_onto, get_or-rev_onto, set-rev_onto, length-rev_onto}

-- The first list without the elements of the second, both increasing.
diff : List ℕ → List ℕ → List ℕ
diff [] bs = []
diff (a ∷ as') [] = a ∷ as'
diff (a ∷ as') (b ∷ bs) =
    let both = diff as' bs in
    let keep = diff as' (b ∷ bs) in
    let skip = diff (a ∷ as') bs in if a == b then both else if ltb a b then a ∷ keep else skip

diff-From : (l : ℕ) (xs ys : List ℕ) → From l xs → From l (diff xs ys)
unfolding diff
diff-From l [] ys f = tt
diff-From l (x ∷ xs) [] f = f
diff-From l (x ∷ xs) (y ∷ ys) f = ground (
  arith,
  diff-From (suc x) xs ys f.1,
  diff-From (suc x) xs (y ∷ ys) f.1,
  diff-From l (x ∷ xs) ys f,
  From-mono {lo = suc x} {lo' = l} (diff xs ys),
)

elem-diff :
    (v l m : ℕ) (xs ys : List ℕ)
    → From l xs
    → From m ys
    → elem v (diff xs ys) ≡ (elem v xs && not (elem v ys))
unfolding diff elem
elem-diff v l m [] ys f g = refl
elem-diff v l m (x ∷ xs) [] f g = ground arith
elem-diff v l m (x ∷ xs) (y ∷ ys) f g = ground (
  arith,
  elem-diff v (suc x) (suc y) xs ys f.1 g.1,
  elem-diff v (suc x) m xs (y ∷ ys) f.1 g,
  elem-diff v l (suc y) (x ∷ xs) ys f g.1,
  elem_below v (suc x) xs f.1,
  elem_below v (suc y) ys g.1,
)

length-diff-le : (xs ys : List ℕ) → length (diff xs ys) ≤ length xs
unfolding diff
length-diff-le [] ys = omega arith
length-diff-le (x ∷ xs) [] = omega arith
length-diff-le (x ∷ xs) (y ∷ ys) =
    ground (arith, length-diff-le xs ys, length-diff-le xs (y ∷ ys), length-diff-le (x ∷ xs) ys)

take-rev_onto :
    (kept rest : List ℕ) (n : ℕ)
    → take (length kept + n) (rev_onto kept rest) ≡ rev_onto kept (take n rest)
unfolding rev_onto
take-rev_onto [] rest n = ap (λ (i : ℕ). take i rest) (omega arith)
take-rev_onto (x ∷ kept) rest n =
    ap (λ (i : ℕ). take i (rev_onto kept (x ∷ rest))) (omega arith)
    ∙ take-rev_onto kept (x ∷ rest) (suc n)

get_or_middle : (w rest : List ℕ) (x : ℕ) → get_or (w ++ x ∷ rest) (length w) 0 ≡ x
get_or_middle [] rest x = refl
get_or_middle (y ∷ w) rest x = get_or_middle w rest x

-- The vector as the loop sees it: `kept` (reversed), then `w`, which does not matter, then `rest`.
abbrev window : List ℕ → List ℕ → List ℕ → List ℕ
window kept w rest = rev_onto kept (w ++ rest)

get_or-window :
    (kept w rest : List ℕ) (x a : ℕ)
    → a ≡ length kept + length w
    → get_or (window kept w (x ∷ rest)) a 0 ≡ x
get_or-window kept w rest x a e =
    ap (λ (i : ℕ). get_or (window kept w (x ∷ rest)) i 0) e
    ∙ get_or-rev_onto kept (w ++ x ∷ rest) (length w)
    ∙ get_or_middle w rest x

-- What is read moves down to the first place that does not matter.
set-window :
    (kept w rest : List ℕ) (g x m : ℕ)
    → m ≡ length kept
    → set (window kept (g ∷ w) (x ∷ rest)) m x ≡ window (x ∷ kept) (w ++ x ∷ []) rest
unfolding rev_onto
set-window kept w rest g x m e =
    ap (λ (i : ℕ). set (rev_onto kept (g ∷ w ++ x ∷ rest)) i x) (omega arith)
    ∙ set-rev_onto kept (g ∷ w ++ x ∷ rest) 0 x
    ∙ ap (λ (l : List ℕ). rev_onto kept (x ∷ l)) (sym (append_assoc w (x ∷ []) rest))

move_round :
    (k n a m x : ℕ) (vs vs' : List ℕ)
    → get_or vs a 0 ≡ x
    → set vs m x ≡ vs'
    → take n (move_down (suc k) vs a m) ≡ take n (move_down k vs' (suc a) (suc m))
unfolding move_down
move_round k n a m x vs vs' e e' = rw (e, e')

move_down-take :
    (kept w rest : List ℕ) (g n a m : ℕ)
    → n ≡ length kept + length rest
    → a ≡ length kept + suc (length w)
    → m ≡ length kept
    → take n (move_down (length rest) (window kept (g ∷ w) rest) a m) ≡ rev_onto kept rest
unfolding move_down rev_onto
move_down-take kept w [] g n a m en ea em =
    ap (λ (i : ℕ). take i (window kept (g ∷ w) [])) en ∙ take-rev_onto kept (g ∷ w ++ []) 0
move_down-take kept [] (x ∷ rest) g n a m en ea em =
    move_round (length rest) n a m x (window kept (g ∷ []) (x ∷ rest))
      (window (x ∷ kept) (x ∷ []) rest) (get_or-window kept (g ∷ []) rest x a ea)
      (set-window kept [] rest g x m em)
    ∙ move_down-take (x ∷ kept) [] rest x n (suc a) (suc m) (omega arith) (omega arith)
        (omega arith)
move_down-take kept (h ∷ w) (x ∷ rest) g n a m en ea em =
    move_round (length rest) n a m x (window kept (g ∷ h ∷ w) (x ∷ rest))
      (window (x ∷ kept) (h ∷ w ++ x ∷ []) rest) (get_or-window kept (g ∷ h ∷ w) rest x a ea)
      (set-window kept (h ∷ w) rest g x m em)
    ∙ move_down-take (x ∷ kept) (w ++ x ∷ []) rest h n (suc a) (suc m) (omega arith)
        (omega (arith, length-append w (x ∷ []))) (omega arith)

-- A state of the loop with `kept` final, `rest` unread and `done` of the second set behind.
abbrev IsAt : List ℕ → List ℕ → List ℕ → List ℕ → EraseState → Type 0
IsAt kept w rest passed st =
    (st.vs ≡ window kept w rest)
    × (st.a ≡ length kept + length w)
    × (st.b ≡ length passed)
    × (st.a_mov ≡ length kept)

length-window :
    (kept w rest : List ℕ) → length (window kept w rest) ≡ length kept + length w + length rest
length-window kept w rest = omega (arith, length-rev_onto kept (w ++ rest), length-append w rest)

sweep_end-IsAt :
    (kept w rest passed : List ℕ) (st : EraseState)
    → IsAt kept w rest passed st
    → sweep_end st ≡ (rev_onto kept rest, st.erased)
unfolding sweep_end
sweep_end-IsAt kept [] rest passed st h = ground (arith, h.0, h.1, h.3)
sweep_end-IsAt kept (g ∷ w) rest passed st h = ground (
  arith,
  h.0,
  h.1,
  h.3,
  left,
  move_down-take kept w rest g (st.a_mov + (length st.vs - st.a)) st.a st.a_mov
      (omega (arith, left)) h.1 h.3,
)
  where
    left : length st.vs - st.a ≡ length rest
    left = omega (arith, ap length h.0, h.1, length-window kept (g ∷ w) rest)

-- One round, by how the two elements in view compare.
module _ (kept w rest passed others : List ℕ) (x y : ℕ) (st : EraseState)
    (h : IsAt kept w (x ∷ rest) passed st) where
  abbrev second : VSet
  second = rev_onto passed (y ∷ others)

  reads_a : get_or st.vs st.a 0 ≡ x
  reads_a = ap (λ (l : List ℕ). get_or l st.a 0) h.0 ∙ get_or-window kept w rest x st.a h.1

  reads_b : get_or second st.b 0 ≡ y
  reads_b =
      ap (λ (i : ℕ). get_or (rev_onto passed (y ∷ others)) i 0) (omega (arith, h.2))
      ∙ get_or-rev_onto passed (y ∷ others) 0

  in_range : (ltb st.a (length st.vs) && ltb st.b (length second)) ≡ true
  in_range = ground (
    arith,
    h.0,
    h.1,
    h.2,
    ap length h.0,
    length-window kept w (x ∷ rest),
    length-rev_onto passed (y ∷ others),
  )

  round_eq :
      x ≡ y
      → IsAt kept (w ++ x ∷ []) rest (y ∷ passed) (sweep_round second st)
        × ((sweep_round second st).erased ≡ suc st.erased)
  unfolding sweep_round
  round_eq e = ground (
    arith,
    h.0,
    h.1,
    h.2,
    h.3,
    reads_a,
    reads_b,
    append_assoc w (x ∷ []) rest,
    length-append w (x ∷ []),
  )

  round_gt :
      y < x
      → IsAt kept w (x ∷ rest) (y ∷ passed) (sweep_round second st)
        × ((sweep_round second st).erased ≡ st.erased)
  unfolding sweep_round
  round_gt e = ground (arith, h.0, h.1, h.2, h.3, reads_a, reads_b)

module _ (kept rest passed others : List ℕ) (x y : ℕ) (st : EraseState) (less : x < y) where
  -- What fills the gap after an element has moved into its first place.
  slide : List ℕ → ℕ → List ℕ
  slide [] x = []
  slide (g ∷ w) x = w ++ x ∷ []

  round_lt :
      (w : List ℕ)
      → IsAt kept w (x ∷ rest) passed st
      → IsAt (x ∷ kept) (slide w x) rest passed (sweep_round (rev_onto passed (y ∷ others)) st)
        × ((sweep_round (rev_onto passed (y ∷ others)) st).erased ≡ st.erased)
  unfolding sweep_round slide rev_onto
  round_lt [] h = ground (
    arith,
    h.0,
    h.1,
    h.2,
    h.3,
    reads_a kept [] rest passed others x y st h,
    reads_b kept [] rest passed others x y st h,
  )
  round_lt (g ∷ w) h = ground (
    arith,
    h.0,
    h.1,
    h.2,
    h.3,
    reads_a kept (g ∷ w) rest passed others x y st h,
    reads_b kept (g ∷ w) rest passed others x y st h,
    set-window kept w rest g x st.a_mov h.3,
    length-append w (x ∷ []),
  )
