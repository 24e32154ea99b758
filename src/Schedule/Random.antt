-- ===== src/Schedule/Random.antt =====
-- src/GenMCDriver.cpp, scheduleNextRandom: the threads in order from a random one on.
use native.Mathlib.Nat.{mod-lt, mod-eq_of_lt, add-mod-mod, add-mod_right}
use rustmc.Prelude.{
  ℕ, zero, suc, ◌+◌, ◌-◌, ◌%◌, ◌<◌, ◌≡◌, refl, sym, ap, subst, ◌∙◌, inl, inr, false, Bool-cases,
  some, if◌then◌else◌, trichotomy, arith,
}
use rustmc.Schedule.{Driver, is_schedulable, random_from, schedule_next_random}
use rustmc.Schedule.Symmetric.{IsEarlier}
use rustmc.Schedule.Normal.{IsPick, IsChoice, schedule_symmetric-IsChoice}

-- Every thread is met from every start.
residue : (n r i : ℕ) → i < n → (j : ℕ) × (j < n) × ((j + r) % n ≡ i)
residue n r i h = elim (trichotomy i (r % n)) [
  | inl less ↦ (
    i + n - r % n,
    omega (arith, less, below),
    sym (add-mod-mod (i + n - r % n) r n)
        ∙ ap (λ (t : ℕ). t % n) {x = i + n - r % n + r % n} {y = i + n} (omega (arith, less, below))
        ∙ add-mod_right i n
        ∙ mod-eq_of_lt h,
  )
  | inr (inl eq) ↦
      (0, omega (arith, h), ap (λ (t : ℕ). t % n) {x = 0 + r} {y = r} (omega arith) ∙ sym eq)
  | inr (inr more) ↦ (
    i - r % n,
    omega (arith, h),
    sym (add-mod-mod (i - r % n) r n)
        ∙ ap (λ (t : ℕ). t % n) {x = i - r % n + r % n} {y = i} (omega (arith, more))
        ∙ mod-eq_of_lt h,
  )
]
  where
    below : r % n < n
    below = mod-lt r (omega (arith, h))

module _ (g : Driver) (r : ℕ) where
  random_from-IsPick :
      (k j : ℕ)
      → j + k ≡ g.num_threads
      → ((i : ℕ) → i < j → is_schedulable g ((i + r) % g.num_threads) ≡ false)
      → IsPick g (random_from g r k j)
  unfolding random_from
  random_from-IsPick zero j e f = inr (
    refl,
    λ i b.
        let at = residue g.num_threads r i b in
        subst (λ z. is_schedulable g z ≡ false) at.2 (f at.0 (omega (arith, at.1, e))),
  )
  random_from-IsPick (suc k) j e f =
      elim (Bool-cases (is_schedulable g ((j + r) % g.num_threads))) [
        | inl y ↦ inl (
          (j + r) % g.num_threads,
          ap (λ b. if b then some ((j + r) % g.num_threads) else random_from g r k (suc j)) y,
          mod-lt (j + r) (omega (arith, e)),
          y,
        )
        | inr n ↦
            subst (IsPick g)
              (ap (λ b. if b then some ((j + r) % g.num_threads) else random_from g r k (suc j))
                (sym n))
              (random_from-IsPick k (suc j) (omega (arith, e)) (λ i b. elim (trichotomy i j) [
                | inl less ↦ f i less
                | inr (inl eq) ↦
                    subst (λ z. is_schedulable g ((z + r) % g.num_threads) ≡ false) (sym eq) n
                | inr (inr more) ↦ absurd (omega (arith, b, more))
              ]))
      ]

pub schedule_next_random-IsChoice : (g : Driver) → IsEarlier g → IsChoice g (schedule_next_random g)
unfolding schedule_next_random
schedule_next_random-IsChoice g earlier =
    schedule_symmetric-IsChoice g earlier (random_from g (g.draw g.num_threads) g.num_threads 0) (
      random_from-IsPick g (g.draw g.num_threads) g.num_threads 0 (omega arith)
        (λ i b. absurd (omega (arith, b))))
