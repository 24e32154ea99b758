-- ===== src/Examples/Bounds.antt =====
-- The bound of src/RoundBoundDecider.cpp on two threads.
use rustmc.Prelude.{◌≡◌, some, ltb}
use rustmc.RoundBound.{does_execution_exceed_bound}
use rustmc.RoundBound.Rounds.{does_execution_exceed_bound-calculate}
use rustmc.RoundBound.Runs.{two_threads_graph, two_threads_graph-IsUnfinished, calculate_run}

does_execution_exceed_bound-calculate_example :
    does_execution_exceed_bound two_threads_graph 0 ≡ some (ltb 0 1)
does_execution_exceed_bound-calculate_example =
    does_execution_exceed_bound-calculate two_threads_graph 2 0 1 two_threads_graph-IsUnfinished
      calculate_run
