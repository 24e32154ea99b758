-- ===== src/RoundBound/Runs.antt =====
-- src/RoundBoundDecider.cpp: two threads, the first of which reads from the second.
use rustmc.Prelude.{ℕ, ◌≡◌, refl, ◌∷◌, if◌then◌else◌, some, [], arith}
use rustmc.Event.{Event, same}
use rustmc.View.{empty_view, get_max, set_max, update_idx, contains, grow}
use rustmc.View.Laws.{get_max-get_or}
use rustmc.RoundBound.{
  Graph, Label, read, other, are_preds_in, are_sc_preds_in_view, advance, threads, one_round,
  calculate_from, calculate, one_more,
}
use rustmc.RoundBound.Rounds.{IsUnfinished}

abbrev at : ℕ → ℕ → Event
at t i = record { thread = t; index = i }

-- The first event of thread 0 reads from the first of thread 1.
abbrev label_at : Event → Label
label_at e = if same e (at 0 1) then read (at 1 1) else other

abbrev pub two_threads_graph : Graph
two_threads_graph = record {
  num_threads = 2;
  full = record { view = 2 ∷ 1 ∷ [] };
  label_of = label_at;
}

pub two_threads_graph-IsUnfinished : IsUnfinished two_threads_graph empty_view
unfolding get_max
two_threads_graph-IsUnfinished = record {
  thread = 0;
  in_graph = omega arith;
  left = ground (arith, get_max-get_or empty_view 0);
}

-- One round more than the first is needed.
pub calculate_run : calculate two_threads_graph 2 ≡ some 1
unfolding calculate calculate_from one_round threads advance are_sc_preds_in_view are_preds_in
    one_more get_max set_max update_idx contains grow
calculate_run = refl
