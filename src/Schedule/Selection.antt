-- ===== src/Schedule/Selection.antt =====
-- src/GenMCDriver.cpp, scheduleNextWFR: the random choice from a selection of threads.
use mathlib.Core.Option.{some-injective, none-ne-some}
use rustmc.Prelude.{
  ℕ, zero, suc, ◌+◌, ◌-◌, ◌≤◌, ◌<◌, ◌≡◌, refl, ap, subst, ◌∙◌, inl, inr, Bool, true, false, not,
  ◌&&◌, Bool-cases, List, [], ◌∷◌, none, some, if◌then◌else◌, ◌>>=◌, length, get_elem?, trichotomy,
  arith,
}
use rustmc.Schedule.{
  Driver, is_schedulable, schedule_by_graph, schedule_symmetric, threads_from, selection,
  schedule_selected, schedule_next_wfr,
}
use rustmc.Schedule.Symmetric.{IsEarlier}
use rustmc.Schedule.Normal.{
  IsChoice, schedule_symmetric-IsChoice, by_graph-IsChoice, schedule_by_graph-IsSchedulable,
}

-- The threads of a list from `threads_from` pass its test.
threads_from-passes :
    (p : ℕ → Bool) (k i m t : ℕ)
    → get_elem? (threads_from p k i) m ≡ some t
    → (t < i + k) × (p t ≡ true)
unfolding threads_from
threads_from-passes p zero i m t e = absurd (none-ne-some _ e)
threads_from-passes p (suc k) i m t e = elim (Bool-cases (p i)) [
  | inl y ↦
      taken (λ m. threads_from-passes p k (suc i) m t) y m
        (subst
          (λ b.
            get_elem? (if b then i ∷ threads_from p k (suc i) else threads_from p k (suc i)) m
            ≡ some t)
          y e)
  | inr n ↦ further (
      threads_from-passes p k (suc i) m t (
        subst
          (λ b.
            get_elem? (if b then i ∷ threads_from p k (suc i) else threads_from p k (suc i)) m
            ≡ some t)
          n e))
]
  where
    further : (t < suc i + k) × (p t ≡ true) → (t < i + suc k) × (p t ≡ true)
    further (b, s) = (omega (arith, b), s)

    taken :
        ((m : ℕ) → get_elem? (threads_from p k (suc i)) m ≡ some t → (t < suc i + k) × (p t ≡ true))
        → p i ≡ true
        → (m : ℕ) → get_elem? (i ∷ threads_from p k (suc i)) m ≡ some t
        → (t < i + suc k) × (p t ≡ true)
    taken rest y zero e =
        let same = some-injective _ _ e in (omega (arith, same), subst (λ z. p z ≡ true) same y)
    taken rest y (suc m) e = further (rest m e)

threads_from-none :
    (p : ℕ → Bool) (k i : ℕ) → threads_from p k i ≡ [] → (j : ℕ) → i ≤ j → j < i + k → p j ≡ false
unfolding threads_from
threads_from-none p zero i e j a b = absurd (omega (arith, a, b))
threads_from-none p (suc k) i e j a b = elim (Bool-cases (p i)) [
  | inl y ↦ absurd (ground (arith, y, e))
  | inr n ↦ elim (trichotomy i j) [
    | inl less ↦
        threads_from-none p k (suc i) (ground (arith, n, e)) j (omega (arith, less))
          (omega (arith, b))
    | inr (inl eq) ↦ subst (λ z. p z ≡ false) eq n
    | inr (inr more) ↦ absurd (omega (arith, a, more))
  ]
]

get_elem?-in_range :
    {A : Type 0} (xs : List A) (m : ℕ) → m < length xs → (a : A) × (get_elem? xs m ≡ some a)
get_elem?-in_range [] m h = absurd (omega (arith, h))
get_elem?-in_range (x ∷ xs) zero h = (x, refl)
get_elem?-in_range (x ∷ xs) (suc m) h = get_elem?-in_range xs m (omega (arith, h))

-- A draw stays within its bound.
abbrev pub IsDraw : Driver → Type 0
IsDraw g = (b : ℕ) → g.draw b ≤ b

module _ (g : Driver) (earlier : IsEarlier g) (draws : IsDraw g) where
  -- A selection holds only threads that can be scheduled, and is empty only if there is none.
  abbrev IsSelection : List ℕ → Type 0
  IsSelection xs =
      ((m t : ℕ) → get_elem? xs m ≡ some t → (t < g.num_threads) × (is_schedulable g t ≡ true))
      × (xs ≡ [] → (i : ℕ) → i < g.num_threads → is_schedulable g i ≡ false)

  schedule_selected-IsChoice : (xs : List ℕ) → IsSelection xs → IsChoice g (schedule_selected g xs)
  unfolding schedule_selected
  schedule_selected-IsChoice [] (h, f) = (none, refl, inr (refl, f refl))
  schedule_selected-IsChoice (x ∷ xs) (h, f) =
      let m = g.draw (length (x ∷ xs) - 1) in
      let drawn = get_elem?-in_range (x ∷ xs) m (omega (arith, draws (length (x ∷ xs) - 1))) in
      let good = h m drawn.0 drawn.1 in
      let choice =
        schedule_symmetric-IsChoice g earlier (some drawn.0)
          (inl (drawn.0, refl, good.0, good.1)) in
      (choice.0, ap (λ o. o >>= λ t. schedule_symmetric g (some t)) drawn.1 ∙ choice.1, choice.2)

  first_nonempty :
      (ws ns : List ℕ)
      → ((m t : ℕ) → get_elem? ws m ≡ some t → (t < g.num_threads) × (is_schedulable g t ≡ true))
      → ((m t : ℕ) → get_elem? ns m ≡ some t → (t < g.num_threads) × (is_schedulable g t ≡ true))
      → (ws ≡ [] → ns ≡ [] → (i : ℕ) → i < g.num_threads → is_schedulable g i ≡ false)
      → IsSelection (elim ws [ [] ↦ ns | i ∷ is ↦ i ∷ is ])
  first_nonempty [] ns h k f = (k, λ e. f refl e)
  first_nonempty (w ∷ ws) ns h k f = (h, λ e. absurd (ground (arith, e)))

  selection-IsSelection : IsSelection (selection g)
  unfolding selection
  selection-IsSelection =
      first_nonempty
        (threads_from (λ i. is_schedulable g i && not (g.is_next_load i)) g.num_threads 0)
        (threads_from (λ i. is_schedulable g i && g.is_next_load i) g.num_threads 0)
        (λ m t e.
          let is =
            threads_from-passes (λ i. is_schedulable g i && not (g.is_next_load i)) g.num_threads 0
              m t e in
          (omega (arith, is.0), ground (arith, is.1)))
        (λ m t e.
          let is =
            threads_from-passes (λ i. is_schedulable g i && g.is_next_load i) g.num_threads 0 m t
              e in
          (omega (arith, is.0), ground (arith, is.1)))
        (λ w n i b.
          let no_write =
            threads_from-none (λ i. is_schedulable g i && not (g.is_next_load i)) g.num_threads 0 w
              i (omega arith) (omega (arith, b)) in
          let no_load =
            threads_from-none (λ i. is_schedulable g i && g.is_next_load i) g.num_threads 0 n i
              (omega arith) (omega (arith, b)) in
          ground (arith, no_write, no_load))

  pub schedule_next_wfr-IsChoice : IsChoice g (schedule_next_wfr g)
  unfolding schedule_next_wfr
  schedule_next_wfr-IsChoice =
      by_graph-IsChoice g earlier (schedule_by_graph g) _
        (schedule_by_graph-IsSchedulable g earlier)
        (schedule_selected-IsChoice (selection g) selection-IsSelection)
