-- ===== src/ContextBound/Search.antt =====
-- src/ContextBoundDecider.cpp: the backward search for a schedule and the test of an execution. An abort
-- is `none`.
use rustmc.Prelude.{
  ℕ, zero, suc, ◌+◌, Bool, true, false, not, ◌&&◌, ◌||◌, List, [], ◌∷◌, Option, none, some,
  if◌then◌else◌, ◌==◌, ◌>>=◌,
}
use rustmc.View.{View, get_max}
use rustmc.ContextBound.{Graph, can_block, is_enabled, is_sc_maximal, is_candidate, shrink}

-- The loop of `unfoldPrefix`, of `left` rounds at most.
unfoldable pub unfold_loop : Graph → ℕ → View → ℕ → View
unfold_loop g zero v t = v
unfold_loop g (suc left) v t =
    let further = unfold_loop g left (shrink v t) t in
    if is_sc_maximal g v t && not (can_block g v t) then further else v

-- Each round takes an event off the thread.
unfoldable pub unfold_prefix : Graph → View → ℕ → View
unfolding unfold_loop
unfold_prefix g v t = unfold_loop g (get_max v t) v t

unfoldable pub all_zero : List ℕ → Bool
all_zero [] = true
all_zero (x ∷ xs) = x == 0 && all_zero xs

unfoldable pub num_events : List ℕ → ℕ
num_events [] = 0
num_events (x ∷ xs) = x + num_events xs

-- `true` ends the loop, `false` goes on with it, and so does the lack of a bound.
unfoldable pub or_rest : Option Bool → Option Bool → Option Bool
or_rest none rest = none
or_rest (some true) rest = some true
or_rest (some false) rest = rest

-- Whether going on with thread `tp` is a context switch.
unfoldable pub is_switch : Graph → View → ℕ → ℕ → Option Bool
is_switch g v t tp = if tp == t then some false else is_enabled g v tp

-- The recursive call for thread `tp`, which a switch needs a bound for.
unfoldable pub try : (View → ℕ → ℕ → Option Bool) → View → ℕ → ℕ → Option Bool → Option Bool
try explore v tp bound none = none
try explore v tp bound (some false) = explore (shrink v tp) tp bound
try explore v tp zero (some true) = some false
try explore v tp (suc bound) (some true) = explore (shrink v tp) tp bound

-- The loop over the threads `tp`, `tp + 1`, ..., `left` of them.
unfoldable pub threads_loop :
    Graph → (View → ℕ → ℕ → Option Bool) → View → ℕ → ℕ → ℕ → ℕ → Bool → Option Bool
unfolding or_rest
threads_loop g explore v t bound zero tp exists = if exists then some false else none
threads_loop g explore v t bound (suc left) tp exists =
    let rest = threads_loop g explore v t bound left (suc tp) (exists || is_candidate g v tp) in
    if is_candidate g v tp then or_rest (try explore v tp bound (is_switch g v t tp)) rest else rest

-- `doesPrefixExceedBound` with a fuel, which no search uses up that has the number of events in the view.
unfoldable pub prefix_from : Graph → ℕ → View → ℕ → ℕ → Option Bool
unfolding all_zero threads_loop
prefix_from g zero v t bound =
    if all_zero (View.view (unfold_prefix g v t)) then some true else none
prefix_from g (suc fuel) v t bound =
    let rest =
      threads_loop g (λ w u b. prefix_from g fuel w u b) (unfold_prefix g v t) t bound g.num_threads
        0 false in
    if all_zero (View.view (unfold_prefix g v t)) then some true else rest

unfoldable pub does_prefix_exceed_bound : Graph → View → ℕ → ℕ → Option Bool
unfolding num_events prefix_from
does_prefix_exceed_bound g v t bound = prefix_from g (num_events (View.view v)) v t bound

-- The loop of `doesExecutionExceedBound`.
unfoldable pub execution_loop : Graph → ℕ → ℕ → ℕ → Bool → Option Bool
execution_loop g bound zero i exists = if exists then some true else none
execution_loop g bound (suc left) i exists =
    let rest = execution_loop g bound left (suc i) (exists || is_candidate g g.full i) in
    if is_candidate g g.full i
    then does_prefix_exceed_bound g (shrink g.full i) i bound
      >>= (λ b. if b then some false else rest)
    else rest

unfoldable pub does_execution_exceed_bound : Graph → ℕ → Option Bool
unfolding execution_loop
does_execution_exceed_bound g bound = execution_loop g bound g.num_threads 0 false
