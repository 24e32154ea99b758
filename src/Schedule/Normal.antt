-- ===== src/Schedule/Normal.antt =====
-- src/GenMCDriver.cpp: the scheduling policies without random choices.
use mathlib.Core.Option.{some-injective, none-ne-some}
use rustmc.Prelude.{
  ℕ, zero, suc, ◌+◌, ◌≤◌, ◌<◌, ◌≡◌, refl, sym, ap, subst, ◌∙◌, ◌⊎◌, inl, inr, Bool, true, false,
  not, ◌&&◌, Bool-cases, Option, none, some, if◌then◌else◌, ◌>>=◌, trichotomy, arith,
}
use rustmc.Schedule.{
  Driver, is_schedulable, first_from, schedule_next_ltr, schedule_by_graph, wf_loop,
  schedule_symmetric, or_fallback, schedule_next_wf,
}
use rustmc.Schedule.Symmetric.{IsEarlier, get_first_schedulable_symmetric-IsFirst}

-- A thread that can be scheduled, or none and no thread can.
abbrev pub IsPick : Driver → Option ℕ → Type 0
IsPick g o =
    ((t : ℕ) × (o ≡ some t) × (t < g.num_threads) × (is_schedulable g t ≡ true))
    ⊎ ((o ≡ none) × ((i : ℕ) → i < g.num_threads → is_schedulable g i ≡ false))

-- The same of an answer that is no abort.
abbrev pub IsChoice : Driver → Option (Option ℕ) → Type 0
IsChoice g o = (p : Option ℕ) × (o ≡ some p) × IsPick g p

pub first_from-IsFirst :
    (p : ℕ → Bool) (k i : ℕ)
    → ((t : ℕ) × (first_from p k i ≡ some t) × (t < i + k) × (p t ≡ true))
      ⊎ ((first_from p k i ≡ none) × ((j : ℕ) → i ≤ j → j < i + k → p j ≡ false))
unfolding first_from
first_from-IsFirst p zero i = inr (refl, λ j a b. absurd (omega (arith, a, b)))
first_from-IsFirst p (suc k) i = elim (Bool-cases (p i)) [
  | inl y ↦ inl (i, rw y refl, omega arith, y)
  | inr n ↦ elim (first_from-IsFirst p k (suc i)) [
    | inl (t, e, b, s) ↦ inl (t, rw n e, omega (arith, b), s)
    | inr (e, f) ↦ inr (rw n e, λ j a b. beyond n f j a b)
  ]
]
  where
    beyond :
        p i ≡ false
        → ((j : ℕ) → suc i ≤ j → j < suc i + k → p j ≡ false)
        → (j : ℕ) → i ≤ j
        → j < i + suc k
        → p j ≡ false
    beyond n f j a b = elim (trichotomy i j) [
      | inl less ↦ f j (omega (arith, less)) (omega (arith, b))
      | inr (inl eq) ↦ subst (λ z. p z ≡ false) eq n
      | inr (inr more) ↦ absurd (omega (arith, a, more))
    ]

pub schedule_next_ltr-IsPick : (g : Driver) → IsPick g (schedule_next_ltr g)
unfolding schedule_next_ltr
schedule_next_ltr-IsPick g = elim (first_from-IsFirst (is_schedulable g) g.num_threads 0) [
  | inl (t, e, b, s) ↦ inl (t, e, omega (arith, b), s)
  | inr (e, f) ↦ inr (e, λ i b. f i (omega arith) (omega (arith, b)))
]

module _ (g : Driver) (earlier : IsEarlier g) where
  pub schedule_symmetric-IsChoice :
      (o : Option ℕ) → IsPick g o → IsChoice g (schedule_symmetric g o)
  unfolding schedule_symmetric
  schedule_symmetric-IsChoice none (inl (t, e, b, s)) = absurd (none-ne-some _ e)
  schedule_symmetric-IsChoice none (inr (e, f)) = (none, refl, inr (refl, f))
  schedule_symmetric-IsChoice (some i) (inr (e, f)) = absurd (none-ne-some _ (sym e))
  schedule_symmetric-IsChoice (some i) (inl (t, e, b, s)) =
      let same = some-injective _ _ e in
      let is = get_first_schedulable_symmetric-IsFirst g i earlier in
      (
        some is.0,
        ap (λ o. o >>= λ t. some (some t)) is.1,
        inl (
          is.0,
          refl,
          omega (arith, is.2, same, b),
          is.3 (subst (λ z. is_schedulable g z ≡ true) (sym same) s),
        ),
      )

  pub by_graph-IsChoice :
      (o : Option ℕ) (rest : Option (Option ℕ))
      → ((t : ℕ) → o ≡ some t → (t < g.num_threads) × (is_schedulable g t ≡ true))
      → IsChoice g rest
      → IsChoice g (elim o [ some i ↦ some (some i) | none ↦ rest ])
  by_graph-IsChoice none rest h c = c
  by_graph-IsChoice (some i) rest h c = (some i, refl, inl (i, refl, (h i refl).0, (h i refl).1))

  pub schedule_by_graph-IsSchedulable :
      (t : ℕ) → schedule_by_graph g ≡ some t → (t < g.num_threads) × (is_schedulable g t ≡ true)
  unfolding schedule_by_graph
  schedule_by_graph-IsSchedulable t e =
      elim (first_from-IsFirst (λ i. is_schedulable g i && g.contains_next i) g.num_threads 0) [
        | inl (u, d, b, s) ↦
            let same = some-injective _ _ (sym d ∙ e) in
            (
              omega (arith, b, same),
              subst (λ z. is_schedulable g z ≡ true) same (ground (arith, s)),
            )
        | inr (d, f) ↦ absurd (none-ne-some _ (sym d ∙ e))
      ]

  -- The fallback after the threads below `i`.
  abbrev IsFallback : ℕ → Option ℕ → Type 0
  IsFallback i o =
      ((t : ℕ) × (o ≡ some t) × (t < g.num_threads) × (is_schedulable g t ≡ true))
      ⊎ ((o ≡ none) × ((j : ℕ) → j < i → is_schedulable g j ≡ false))

  by_tests :
      (b c : Bool) (x y z : Option ℕ × Option ℕ)
      → (b ≡ false → IsPick g (or_fallback x))
      → (b ≡ true → IsPick g (or_fallback y))
      → (b ≡ true → IsPick g (or_fallback z))
      → IsPick g (or_fallback (if not b then x else if not c then y else z))
  by_tests false c x y z h k l = h refl
  by_tests true false x y z h k l = k refl
  by_tests true true x y z h k l = l refl

  skipped :
      (i : ℕ) (o : Option ℕ) → is_schedulable g i ≡ false → IsFallback i o → IsFallback (suc i) o
  skipped i o n (inl f) = inl f
  skipped i o n (inr (e, f)) = inr (
    e,
    λ j b. elim (trichotomy j i) [
      | inl less ↦ f j less
      | inr (inl eq) ↦ subst (λ z. is_schedulable g z ≡ false) (sym eq) n
      | inr (inr more) ↦ absurd (omega (arith, b, more))
    ],
  )

  kept :
      (i : ℕ) (o : Option ℕ)
      → i < g.num_threads
      → is_schedulable g i ≡ true
      → IsFallback i o
      → IsFallback (suc i) (elim o [ none ↦ some i | some j ↦ some j ])
  kept i none b s f = inl (i, refl, b, s)
  kept i (some j) b s (inl f) = inl f
  kept i (some j) b s (inr (e, f)) = absurd (none-ne-some _ (sym e))

  wf_loop-IsPick :
      (k i : ℕ) (o : Option ℕ)
      → i + k ≡ g.num_threads
      → IsFallback i o
      → IsPick g (or_fallback (wf_loop g k i o))
  unfolding wf_loop or_fallback
  wf_loop-IsPick zero i o e (inl f) = inl f
  wf_loop-IsPick zero i o e (inr (n, f)) = inr (n, λ j b. f j (omega (arith, e, b)))
  wf_loop-IsPick (suc k) i o e f =
      by_tests (is_schedulable g i) (g.is_next_load i) _ _ _
        (λ n. wf_loop-IsPick k (suc i) o (omega (arith, e)) (skipped i o n f))
        (λ s. inl (i, refl, omega (arith, e), s))
        (λ s. wf_loop-IsPick k (suc i) _ (omega (arith, e)) (kept i o (omega (arith, e)) s f))

  pub schedule_next_wf-IsChoice : IsChoice g (schedule_next_wf g)
  unfolding schedule_next_wf
  schedule_next_wf-IsChoice =
      by_graph-IsChoice (schedule_by_graph g) _ schedule_by_graph-IsSchedulable (
        schedule_symmetric-IsChoice (or_fallback (wf_loop g g.num_threads 0 none)) (
          wf_loop-IsPick g.num_threads 0 none (omega arith)
            (inr (refl, λ j b. absurd (omega (arith, b))))))
