-- ===== src/Schedule/Symmetric.antt =====
-- src/GenMCDriver.cpp, getFirstSchedulableSymmetric: the walk over the symmetric predecessors.
use rustmc.Prelude.{
  ℕ, zero, suc, ◌≤◌, ◌<◌, ◌≡◌, refl, sym, ap, subst, ◌∙◌, ◌⊎◌, inl, inr, true, false, Bool-cases,
  Option, none, some, if◌then◌else◌, arith,
}
use mathlib.Core.Option.{some-injective, none-ne-some}
use rustmc.Schedule.{Driver, is_schedulable, symm_loop, get_first_schedulable_symmetric}

-- The symmetric predecessors of a thread, direct and further ones.
pub data Precedes (g : Driver) : ℕ → ℕ → Type 0 where
  direct : {t u : ℕ} → g.symm_pred_tid t ≡ some u → Precedes g t u
  further : {t v u : ℕ} → g.symm_pred_tid t ≡ some v → Precedes g v u → Precedes g t u

-- A symmetric predecessor was created before, with a smaller number.
abbrev pub IsEarlier : Driver → Type 0
IsEarlier g = (t u : ℕ) → g.symm_pred_tid t ≡ some u → u < t

module _ (g : Driver) (earlier : IsEarlier g) where
  -- The answer is the first thread or one behind it that can be scheduled.
  abbrev Origin : Option ℕ → ℕ → ℕ → Type 0
  Origin next first t =
      (t ≡ first)
      ⊎ ((v : ℕ) × (next ≡ some v) × ((t ≡ v) ⊎ Precedes g v t) × (is_schedulable g t ≡ true))

  Precedes-behind :
      (v t : ℕ)
      → (w : ℕ) × (g.symm_pred_tid v ≡ some w)
        × ((t ≡ w) ⊎ Precedes g w t)
        × (is_schedulable g t ≡ true)
      → Precedes g v t
  Precedes-behind v t (w, e, inl q, s) = subst (λ z. Precedes g v z) (sym q) (direct e)
  Precedes-behind v t (w, e, inr p, s) = further e p

  -- The first predecessor can be scheduled and takes the place of the thread, or it is passed by.
  taken :
      (v first t : ℕ)
      → is_schedulable g v ≡ true
      → Origin (g.symm_pred_tid v) v t
      → Origin (some v) first t
  taken v first t y (inl q) = inr (v, refl, inl q, subst (λ z. is_schedulable g z ≡ true) (sym q) y)
  taken v first t y (inr o) = inr (v, refl, inr (Precedes-behind v t o), o.3)

  passed : (v first t : ℕ) → Origin (g.symm_pred_tid v) first t → Origin (some v) first t
  passed v first t (inl q) = inl q
  passed v first t (inr o) = inr (v, refl, inr (Precedes-behind v t o), o.3)

  abbrev Ends : Option ℕ → Option ℕ → ℕ → Type 0
  Ends o next first =
      (t : ℕ) × (o ≡ some t)
      × (t ≤ first)
      × ((is_schedulable g first ≡ true) → is_schedulable g t ≡ true)
      × ((u v : ℕ) → next ≡ some v → (u ≡ v) ⊎ Precedes g v u → is_schedulable g u ≡ true → t ≤ u)
      × Origin next first t

  -- What holds of the first predecessor and of those behind it holds of all.
  least :
      (t v : ℕ)
      → (is_schedulable g v ≡ true → t ≤ v)
      → ((u w : ℕ)
          → g.symm_pred_tid v ≡ some w
          → (u ≡ w) ⊎ Precedes g w u
          → is_schedulable g u ≡ true
          → t ≤ u)
      → (u : ℕ) → (u ≡ v) ⊎ Precedes g v u
      → is_schedulable g u ≡ true
      → t ≤ u
  least t v here rest u (inl q) s =
      subst (λ z. t ≤ z) (sym q) (here (subst (λ z. is_schedulable g z ≡ true) q s))
  least t v here rest u (inr (direct e)) s = rest u u e (inl refl) s
  least t v here rest u (inr (further {v = w} e p)) s = rest u w e (inr p) s

  at_first :
      {A : Type 0} (v u w : ℕ)
      → ◌≡◌ {A = Option ℕ} (some v) (some w)
      → ((u ≡ v) ⊎ Precedes g v u → A)
      → (u ≡ w) ⊎ Precedes g w u
      → A
  at_first {A = A} v u w e k = subst (λ z. (u ≡ z) ⊎ Precedes g z u → A) (some-injective _ _ e) k

  symm_loop-Ends :
      (fuel : ℕ) (next : Option ℕ) (first : ℕ)
      → ((v : ℕ) → next ≡ some v → (v < fuel) × (v < first))
      → Ends (symm_loop g fuel next first) next first
  unfolding symm_loop
  symm_loop-Ends fuel none first h =
      (first, refl, omega arith, λ s. s, λ u v e. absurd (none-ne-some _ e), inl refl)
  symm_loop-Ends zero (some v) first h = absurd (omega (arith, (h v refl).0))
  symm_loop-Ends (suc fuel) (some v) first h = elim (Bool-cases (is_schedulable g v)) [
    | inl y ↦
        let ih = symm_loop-Ends fuel (g.symm_pred_tid v) v (λ w e. next_below w e) in
        rw y (
          ih.0,
          ih.1,
          omega (arith, ih.2, (h v refl).1),
          λ s. ih.3 y,
          λ u w e. at_first v u w e (least ih.0 v (λ s. ih.2) ih.4 u),
          taken v first ih.0 y ih.5,
        )
    | inr n ↦
        let ih = symm_loop-Ends fuel (g.symm_pred_tid v) first (λ w e. next_below_first w e) in
        rw n (
          ih.0,
          ih.1,
          ih.2,
          ih.3,
          λ u w e. at_first v u w e (least ih.0 v (λ s. absurd (ground (arith, n, s))) ih.4 u),
          passed v first ih.0 ih.5,
        )
  ]
    where
      next_below : (w : ℕ) → g.symm_pred_tid v ≡ some w → (w < fuel) × (w < v)
      next_below w e = (omega (arith, earlier v w e, (h v refl).0), earlier v w e)

      next_below_first : (w : ℕ) → g.symm_pred_tid v ≡ some w → (w < fuel) × (w < first)
      next_below_first w e =
          (omega (arith, earlier v w e, (h v refl).0), omega (arith, earlier v w e, (h v refl).1))

-- When symmetric predecessors have smaller numbers, the walk over them ends. It answers the thread itself,
-- or a predecessor of it that can be scheduled; the answer is no greater than the thread, and with symmetry
-- reduction than any predecessor that can be scheduled; if the thread can be scheduled, so can the
-- answer. Without symmetry reduction the answer is the thread.
pub get_first_schedulable_symmetric-IsFirst :
    (g : Driver) (tid : ℕ)
    → IsEarlier g
    → (t : ℕ) × (get_first_schedulable_symmetric g tid ≡ some t)
      × (t ≤ tid)
      × ((is_schedulable g tid ≡ true) → is_schedulable g t ≡ true)
      × ((g.symmetry_reduction ≡ false) → t ≡ tid)
      × ((u : ℕ)
          → g.symmetry_reduction ≡ true
          → Precedes g tid u
          → is_schedulable g u ≡ true
          → t ≤ u)
      × ((t ≡ tid) ⊎ (Precedes g tid t × (is_schedulable g t ≡ true)))
unfolding get_first_schedulable_symmetric
get_first_schedulable_symmetric-IsFirst g tid earlier = elim (Bool-cases g.symmetry_reduction) [
  | inl y ↦
      let is =
        symm_loop-Ends g earlier tid (g.symm_pred_tid tid) tid
          (λ v e. (earlier tid v e, earlier tid v e)) in
      (
        is.0,
        ap (λ b. if b then symm_loop g tid (g.symm_pred_tid tid) tid else some tid) y ∙ is.1,
        is.2,
        is.3,
        λ n. absurd (ground (arith, y, n)),
        λ u s p. behind_tid is.0 is.4 u p,
        answer is.0 is.5,
      )
  | inr n ↦ (
    tid,
    ap (λ b. if b then symm_loop g tid (g.symm_pred_tid tid) tid else some tid) n,
    omega arith,
    λ s. s,
    λ m. refl,
    λ u s. absurd (ground (arith, n, s)),
    inl refl,
  )
]
  where
    answer :
        (t : ℕ)
        → Origin g earlier (g.symm_pred_tid tid) tid t
        → (t ≡ tid) ⊎ (Precedes g tid t × (is_schedulable g t ≡ true))
    answer t (inl q) = inl q
    answer t (inr o) = inr (Precedes-behind g earlier tid t o, o.3)

    behind_tid :
        (t : ℕ)
        → ((u v : ℕ)
            → g.symm_pred_tid tid ≡ some v
            → (u ≡ v) ⊎ Precedes g v u
            → is_schedulable g u ≡ true
            → t ≤ u)
        → (u : ℕ) → Precedes g tid u
        → is_schedulable g u ≡ true
        → t ≤ u
    behind_tid t k u (direct e) s = k u u e (inl refl) s
    behind_tid t k u (further {v = w} e p) s = k u w e (inr p) s
