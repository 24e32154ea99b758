-- ===== src/ContextBound/Termination.antt =====
-- src/ContextBoundDecider.cpp: the search comes to an answer.
use rustmc.Prelude.{
  ℕ, zero, suc, ◌-◌, ◌+◌, ◌<◌, ◌≤◌, ◌≡◌, refl, subst, sym, ap, ◌∙◌, ◌⊎◌, inl, inr, Bool-cases, Bool,
  true, false, List, [], ◌∷◌, Option, some, ◌==◌, get_or, set, length, ==_iff, not, ◌&&◌, ◌||◌,
  arith,
}
use rustmc.View.{View, get_max, set_max}
use rustmc.ContextBound.{Graph, can_block, is_sc_maximal, is_enabled, is_candidate, shrink}
use rustmc.ContextBound.Search.{
  is_switch, unfold_loop, unfold_prefix, num_events, all_zero, try, or_rest, threads_loop,
  prefix_from, does_prefix_exceed_bound,
}
use rustmc.ContextBound.Unwinding.{get_max-shrink}

num_events-set_less :
    (xs : List ℕ) (i : ℕ)
    → i < length xs
    → 0 < get_or xs i 0
    → suc (num_events (set xs i (get_or xs i 0 - 1))) ≡ num_events xs
unfolding num_events
num_events-set_less [] i h p = absurd (omega arith)
num_events-set_less (x ∷ xs) zero h p = omega (arith, p)
num_events-set_less (x ∷ xs) (suc i) h p = omega (arith, num_events-set_less xs i (omega arith) p)

-- One event is taken off a thread that has one.
num_events-shrink :
    (v : View) (t : ℕ)
    → 0 < get_max v t
    → suc (num_events (View.view (shrink v t))) ≡ num_events (View.view v)
unfolding shrink get_max set_max
num_events-shrink v t p = ground (arith, p, num_events-set_less v.view t)

zero_total : (xs : List ℕ) → num_events xs ≡ 0 → all_zero xs ≡ true
unfolding num_events all_zero
zero_total [] h = refl
zero_total (x ∷ xs) h = ground (arith, h, zero_total xs)

unfold_loop-num_events :
    (g : Graph) (left t : ℕ) (v : View)
    → left ≤ get_max v t
    → num_events (View.view (unfold_loop g left v t)) ≤ num_events (View.view v)
unfolding unfold_loop
unfold_loop-num_events g zero t v l = omega arith
unfold_loop-num_events g (suc left) t v l = ground (
  arith,
  l,
  num_events-shrink v t,
  unfold_loop-num_events g left t (shrink v t),
  get_max-shrink v t t,
)

-- A family of views that the search stays in: taking off a maximal event leads to a view of the family, a
-- view of the family that has events has a maximal one, and whether a thread is enabled is defined.
abbrev pub IsExplorable : Graph → (View → Type 0) → Type 0
IsExplorable g In =
    ((v : View) (u : ℕ) → In v → is_candidate g v u ≡ true → In (shrink v u))
    × ((v : View)
        → In v
        → all_zero (View.view v) ≡ false
        → (u : ℕ) × (u < g.num_threads) × (is_candidate g v u ≡ true))
    × ((v : View) (u : ℕ) → In v → (b : Bool) × (is_enabled g v u ≡ some b))

module _ (g : Graph) (In : View → Type 0) (is : IsExplorable g In) where
  unfold_loop-In : (left t : ℕ) (v : View) → left ≤ get_max v t → In v → In (unfold_loop g left v t)
  unfolding unfold_loop is_candidate
  unfold_loop-In zero t v l i = i
  unfold_loop-In (suc left) t v l i =
      elim (Bool-cases (is_sc_maximal g v t && not (can_block g v t))) [
        | inl c ↦ subst In (sym (rw c refl)) (
            unfold_loop-In left t (shrink v t) (ground (arith, get_max-shrink v t t, l))
              (is.0 v t i (ground (arith, c, l))))
        | inr n ↦ subst In (sym (rw n refl)) i
      ]

  is_switch-answers : (v : View) (t tp : ℕ) → In v → (b : Bool) × (is_switch g v t tp ≡ some b)
  unfolding is_switch
  is_switch-answers v t tp i = elim (Bool-cases (tp == t)) [
    | inl y ↦ (false, rw y refl)
    | inr n ↦ ((is.2 v tp i).0, rw n (is.2 v tp i).1)
  ]

  try-answers :
      (explore : View → ℕ → ℕ → Option Bool) (v : View) (tp bound : ℕ) (b : Bool)
      → ((c : ℕ) → (a : Bool) × (explore (shrink v tp) tp c ≡ some a))
      → (a : Bool) × (try explore v tp bound (some b) ≡ some a)
  unfolding try
  try-answers explore v tp bound false f = f bound
  try-answers explore v tp zero true f = (false, refl)
  try-answers explore v tp (suc bound) true f = f bound

  or_rest-answers :
      (o rest : Option Bool)
      → (a : Bool) × (o ≡ some a)
      → (a : Bool) × (rest ≡ some a)
      → (a : Bool) × (or_rest o rest ≡ some a)
  unfolding or_rest
  or_rest-answers o rest (true, e) r = (true, rw e refl)
  or_rest-answers o rest (false, e) r = (r.0, rw e r.1)

  -- A candidate is behind the loop, which the flag tells, or ahead of it.
  ahead :
      (v : View) (left tp : ℕ) (x : Bool)
      → (x ≡ true) ⊎ ((u : ℕ) × (tp ≤ u) × (u < tp + suc left) × (is_candidate g v u ≡ true))
      → ((x || is_candidate g v tp) ≡ true)
        ⊎ ((u : ℕ) × (suc tp ≤ u) × (u < suc tp + left) × (is_candidate g v u ≡ true))
  ahead v left tp x (inl y) = inl (rw y refl)
  ahead v left tp x (inr (u, l, h, c)) = elim (Bool-cases (tp == u)) [
    | inl y ↦
        let same : tp ≡ u = (==_iff tp u).0 y in
        let now : is_candidate g v tp ≡ true = ap (is_candidate g v) same ∙ c in
        inl (ground (arith, now))
    | inr n ↦ inr (u, ground (arith, l, n), omega (arith, h), c)
  ]

  threads_loop-answers :
      (explore : View → ℕ → ℕ → Option Bool) (v : View) (t bound left tp : ℕ) (x : Bool)
      → In v
      → ((u c : ℕ) → is_candidate g v u ≡ true → (a : Bool) × (explore (shrink v u) u c ≡ some a))
      → (x ≡ true) ⊎ ((u : ℕ) × (tp ≤ u) × (u < tp + left) × (is_candidate g v u ≡ true))
      → (a : Bool) × (threads_loop g explore v t bound left tp x ≡ some a)
  unfolding threads_loop
  threads_loop-answers explore v t bound zero tp x i f (inl y) = (false, rw y refl)
  threads_loop-answers explore v t bound zero tp x i f (inr (u, l, h, c)) =
      absurd (omega (arith, l, h))
  threads_loop-answers explore v t bound (suc left) tp x i f e =
      let rest =
        threads_loop-answers explore v t bound left (suc tp) (x || is_candidate g v tp) i f
          (ahead v left tp x e) in
      elim (Bool-cases (is_candidate g v tp)) [
        | inl c ↦
            let b = is_switch-answers v t tp i in
            let now = try-answers explore v tp bound b.0 (λ k. f tp k c) in
            let all =
              or_rest-answers (try explore v tp bound (is_switch g v t tp))
                (threads_loop g explore v t bound left (suc tp) (x || is_candidate g v tp))
                (now.0, rw b.1 now.1) rest in
            (all.0, ground (arith, c, all.1))
        | inr n ↦ (rest.0, ground (arith, n, rest.1))
      ]

  shorter :
      (fuel : ℕ) (v : View) (u : ℕ)
      → is_candidate g v u ≡ true
      → num_events (View.view v) ≤ suc fuel
      → num_events (View.view (shrink v u)) ≤ fuel
  unfolding is_candidate
  shorter fuel v u c h = ground (arith, c, h, num_events-shrink v u)

  prefix_from-answers :
      (fuel : ℕ) (v : View) (t bound : ℕ)
      → In v
      → num_events (View.view v) ≤ fuel
      → (a : Bool) × (prefix_from g fuel v t bound ≡ some a)
  unfolding prefix_from unfold_prefix
  prefix_from-answers zero v t bound i h =
      let less = unfold_loop-num_events g (get_max v t) t v (omega arith) in
      let empty =
        zero_total (View.view (unfold_loop g (get_max v t) v t)) (omega (arith, less, h)) in
      (true, ground (arith, empty))
  prefix_from-answers (suc fuel) v t bound i h =
      let w = unfold_loop g (get_max v t) v t in
      let less = unfold_loop-num_events g (get_max v t) t v (omega arith) in
      let inside = unfold_loop-In (get_max v t) t v (omega arith) i in
      elim (Bool-cases (all_zero (View.view w))) [
        | inl y ↦ (true, ground (arith, y))
        | inr n ↦
            let c = is.1 w inside n in
            let rest =
              threads_loop-answers (prefix_from g fuel) w t bound g.num_threads 0 false inside
                (λ u b k.
                  prefix_from-answers fuel (shrink w u) u b (is.0 w u inside k)
                    (shorter fuel w u k (omega (arith, less, h))))
                (inr (c.0, omega arith, omega (arith, c.1), c.2)) in
            (rest.0, ground (arith, n, rest.1))
      ]

  -- When the graph has a family of views that is closed under taking off maximal events, in which every view
  -- with an event has a maximal one and every test of a thread being enabled is defined, then
  -- `doesPrefixExceedBound` ends without an abort on a view of the family, with every bound.
  pub does_prefix_exceed_bound-answers :
      (v : View) (t bound : ℕ) → In v → (a : Bool) × (does_prefix_exceed_bound g v t bound ≡ some a)
  unfolding does_prefix_exceed_bound
  does_prefix_exceed_bound-answers v t bound i =
      prefix_from-answers (num_events (View.view v)) v t bound i (omega arith)
