-- ===== src/ContextBound/Unwinding.antt =====
-- src/ContextBoundDecider.cpp: the schedules that the search stands for, read from their end.
use mathlib.Core.Option.{none-ne-some}
use rustmc.Prelude.{
  ℕ, zero, suc, ◌≤◌, ◌≡◌, refl, inl, inr, Bool-cases, Option-cases, Bool, true, false, ◌-◌, subst,
  ==_iff, Option, none, some, ◌==◌, if◌then◌else◌, not, ◌&&◌, ◌||◌, arith,
}
use rustmc.View.{View, get_max}
use rustmc.View.Laws.{get_max-set_max}
use rustmc.ContextBound.{Graph, can_block, is_sc_maximal, is_enabled, is_candidate, shrink}
use rustmc.ContextBound.Search.{
  is_switch, unfold_loop, unfold_prefix, num_events, all_zero, try, or_rest, threads_loop,
  prefix_from, does_prefix_exceed_bound, execution_loop, does_execution_exceed_bound,
}

-- The events of a view can be taken off one by one, each when it is the last of its thread and no event
-- left depends on it, to the empty view; thread `t` has run last, and at most `bound` times the
-- thread changes to one that could have gone on.
pub data Unwinds (g : Graph) : View → ℕ → ℕ → Type 0 where
  finished : {v : View} {t bound : ℕ} → all_zero (View.view v) ≡ true → Unwinds g v t bound
  same_thread :
      {v : View} {t bound : ℕ}
      → is_candidate g v t ≡ true
      → Unwinds g (shrink v t) t bound
      → Unwinds g v t bound
  free_switch :
      {v : View} {t u bound : ℕ}
      → is_candidate g v u ≡ true
      → is_enabled g v u ≡ some false
      → Unwinds g (shrink v u) u bound
      → Unwinds g v t bound
  context_switch :
      {v : View} {t u bound : ℕ}
      → is_candidate g v u ≡ true
      → Unwinds g (shrink v u) u bound
      → Unwinds g v t (suc bound)

-- A search whose answer `true` comes with such a schedule.
abbrev IsSound : Graph → (View → ℕ → ℕ → Option Bool) → Type 0
IsSound g explore = (v : View) (t bound : ℕ) → explore v t bound ≡ some true → Unwinds g v t bound

try-Unwinds :
    (g : Graph) (explore : View → ℕ → ℕ → Option Bool) (v : View) (t tp bound : ℕ) (o : Option Bool)
    → IsSound g explore
    → is_candidate g v tp ≡ true
    → is_switch g v t tp ≡ o
    → try explore v tp bound o ≡ some true
    → Unwinds g v t bound
unfolding try is_switch
try-Unwinds g explore v t tp bound none f c e h = absurd (none-ne-some _ h)
try-Unwinds g explore v t tp bound (some false) f c e h = elim (Bool-cases (tp == t)) [
  | inl y ↦
      let same : tp ≡ t = (==_iff tp t).0 y in
      same_thread (subst (λ u. is_candidate g v u ≡ true) same c)
        (subst (λ u. Unwinds g (shrink v u) u bound) same (f (shrink v tp) tp bound h))
  | inr n ↦ free_switch c (ground (arith, n, e)) (f (shrink v tp) tp bound h)
]
try-Unwinds g explore v t tp zero (some true) f c e h = absurd (ground (arith, h))
try-Unwinds g explore v t tp (suc bound) (some true) f c e h =
    context_switch c (f (shrink v tp) tp bound h)

threads_loop-Unwinds :
    (g : Graph) (explore : View → ℕ → ℕ → Option Bool) (v : View) (t bound left tp : ℕ) (x : Bool)
    → IsSound g explore
    → threads_loop g explore v t bound left tp x ≡ some true
    → Unwinds g v t bound
unfolding threads_loop or_rest
threads_loop-Unwinds g explore v t bound zero tp x f h = absurd (ground (arith, h))
threads_loop-Unwinds g explore v t bound (suc left) tp x f h =
    elim (Bool-cases (is_candidate g v tp)) [
      | inl c ↦ elim (Option-cases (try explore v tp bound (is_switch g v t tp))) [
        | inl e ↦ absurd (ground (arith, h, c, e))
        | inr (true, e) ↦ try-Unwinds g explore v t tp bound (is_switch g v t tp) f c refl e
        | inr (false, e) ↦
            threads_loop-Unwinds g explore v t bound left (suc tp) (x || is_candidate g v tp) f
              (ground (arith, h, c, e))
      ]
      | inr n ↦
          threads_loop-Unwinds g explore v t bound left (suc tp) (x || is_candidate g v tp) f
            (ground (arith, h, n))
    ]

pub get_max-shrink :
    (v : View) (t u : ℕ)
    → get_max (shrink v t) u ≡ (if u == t then get_max v t - 1 else get_max v u)
unfolding shrink
get_max-shrink v t u = get_max-set_max v (record { thread = t; index = get_max v t - 1 }) u

unfold_loop-Unwinds :
    (g : Graph) (left t bound : ℕ) (v : View)
    → left ≤ get_max v t
    → Unwinds g (unfold_loop g left v t) t bound
    → Unwinds g v t bound
unfolding unfold_loop is_candidate
unfold_loop-Unwinds g zero t bound v l u = u
unfold_loop-Unwinds g (suc left) t bound v l u =
    elim (Bool-cases (is_sc_maximal g v t && not (can_block g v t))) [
      | inl c ↦ same_thread (ground (arith, c, l)) (
          unfold_loop-Unwinds g left t bound (shrink v t) (ground (arith, get_max-shrink v t t, l))
            (subst (λ w. Unwinds g w t bound) (rw c refl) u))
      | inr n ↦ subst (λ w. Unwinds g w t bound) (rw n refl) u
    ]

prefix_from-Unwinds : (g : Graph) (fuel : ℕ) → IsSound g (prefix_from g fuel)
unfolding prefix_from unfold_prefix
prefix_from-Unwinds g zero v t bound h =
    unfold_loop-Unwinds g (get_max v t) t bound v (omega arith) (finished (ground (arith, h)))
prefix_from-Unwinds g (suc fuel) v t bound h =
    unfold_loop-Unwinds g (get_max v t) t bound v (omega arith)
      (elim (Bool-cases (all_zero (View.view (unfold_loop g (get_max v t) v t)))) [
        | inl z ↦ finished z
        | inr n ↦
            threads_loop-Unwinds g (prefix_from g fuel) (unfold_loop g (get_max v t) v t) t bound
              g.num_threads 0 false (prefix_from-Unwinds g fuel) (ground (arith, h, n))
      ])

-- When `doesPrefixExceedBound` answers true for a view and a thread, the events of the view can be taken
-- off in a schedule that ran the thread last and has `bound` context switches at most.
pub does_prefix_exceed_bound-Unwinds :
    (g : Graph) (v : View) (t bound : ℕ)
    → does_prefix_exceed_bound g v t bound ≡ some true
    → Unwinds g v t bound
unfolding does_prefix_exceed_bound
does_prefix_exceed_bound-Unwinds g v t bound h =
    prefix_from-Unwinds g (num_events (View.view v)) v t bound h

execution_loop-Unwinds :
    (g : Graph) (bound left i : ℕ) (x : Bool)
    → execution_loop g bound left i x ≡ some false
    → (u : ℕ) × (is_candidate g g.full u ≡ true) × Unwinds g (shrink g.full u) u bound
unfolding execution_loop
execution_loop-Unwinds g bound zero i x h = absurd (ground (arith, h))
execution_loop-Unwinds g bound (suc left) i x h = elim (Bool-cases (is_candidate g g.full i)) [
  | inl c ↦ elim (Option-cases (does_prefix_exceed_bound g (shrink g.full i) i bound)) [
    | inl e ↦ absurd (ground (arith, h, c, e))
    | inr (true, e) ↦ (i, c, does_prefix_exceed_bound-Unwinds g (shrink g.full i) i bound e)
    | inr (false, e) ↦
        execution_loop-Unwinds g bound left (suc i) (x || is_candidate g g.full i)
          (ground (arith, h, c, e))
  ]
  | inr n ↦
      execution_loop-Unwinds g bound left (suc i) (x || is_candidate g g.full i)
        (ground (arith, h, n))
]

-- When `doesExecutionExceedBound` answers false, some thread can be the last to run, and the events before
-- its last can be taken off in a schedule of `bound` context switches at most.
pub does_execution_exceed_bound-Unwinds :
    (g : Graph) (bound : ℕ)
    → does_execution_exceed_bound g bound ≡ some false
    → (u : ℕ) × (is_candidate g g.full u ≡ true) × Unwinds g (shrink g.full u) u bound
unfolding does_execution_exceed_bound
does_execution_exceed_bound-Unwinds g bound h =
    execution_loop-Unwinds g bound g.num_threads 0 false h
