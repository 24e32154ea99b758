-- ===== src/DepView/Runs.antt =====
-- Concrete clocks of src/DepView.hpp.
use rustmc.Prelude.{ℕ, zero, suc, ◌<◌, ◌≡◌, true, [], ◌∷◌, arith, get_or, ap, ◌∙◌, subst, sym}
use rustmc.VSet.Order.{IsSorted, elem}
use rustmc.View.{View}
use rustmc.View
use rustmc.View.Laws.{get_max-get_or}
use rustmc.DepView.{DepView, get_max, size}
use rustmc.DepView.Holes.{IsClock, holes_of-get_or}

-- Two clocks with one hole each, of which the second also knows a second thread.
abbrev pub one_thread : DepView
one_thread = record { view = record { view = 5 ∷ [] }; holes = (3 ∷ []) ∷ [] }

abbrev pub two_threads : DepView
two_threads = record { view = record { view = 7 ∷ 2 ∷ [] }; holes = (3 ∷ 6 ∷ []) ∷ [] ∷ [] }

pub one_thread-IsClock : IsClock one_thread
unfolding size get_max View.size elem
one_thread-IsClock = record {
  sorted = λ t. subst IsSorted (sym (holes_of-get_or one_thread t)) (sorted t);
  below = λ t h e. below t h (ap (elem h) (sym (holes_of-get_or one_thread t)) ∙ e);
  known = omega arith;
}
  where
    sorted : (t : ℕ) → IsSorted (get_or one_thread.holes t [])
    sorted zero = (omega arith, tt)
    sorted (suc t) = tt

    below : (t h : ℕ) → elem h (get_or one_thread.holes t []) ≡ true → h < get_max one_thread t
    below zero h e = ground (arith, get_max-get_or one_thread.view 0)
    below (suc t) h e = absurd (ground arith)

pub two_threads-IsClock : IsClock two_threads
unfolding size get_max View.size elem
two_threads-IsClock = record {
  sorted = λ t. subst IsSorted (sym (holes_of-get_or two_threads t)) (sorted t);
  below = λ t h e. below t h (ap (elem h) (sym (holes_of-get_or two_threads t)) ∙ e);
  known = omega arith;
}
  where
    sorted : (t : ℕ) → IsSorted (get_or two_threads.holes t [])
    sorted zero = (omega arith, (omega arith, tt))
    sorted (suc zero) = tt
    sorted (suc (suc t)) = tt

    below : (t h : ℕ) → elem h (get_or two_threads.holes t []) ≡ true → h < get_max two_threads t
    below zero h e = ground (arith, get_max-get_or two_threads.view 0)
    below (suc zero) h e = absurd (ground arith)
    below (suc (suc t)) h e = absurd (ground arith)
