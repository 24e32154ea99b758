-- ===== src/RoundBound.antt =====
-- src/RoundBoundDecider.cpp: how many round-robin rounds a sequentially consistent execution needs.
-- The graph is what the code asks of it: the number of threads, the view of all events, and of an
-- event the events that must be scheduled before it.
pub mod Rounds
pub mod Runs
use rustmc.Prelude.{
  ℕ, zero, suc, ◌-◌, Bool, true, false, not, ◌&&◌, List, [], ◌∷◌, Option, none, some, if◌then◌else◌,
}
use rustmc.Event.{Event}
use rustmc.View.{View, empty_view, get_max, contains, update_idx}

-- The kinds of labels that areSCPredsInView tells apart, with the events it looks up.
pub data Label : Type 0 where
  thread_start : Event → Label
  thread_join : Event → Label
  read : Event → Label
  write : Option Event → List Event → Label
  other : Label

pub record Graph : Type 0 where
  pub num_threads : ℕ
  pub full : View
  pub label_of : Event → Label

all_in_view : View → List Event → Bool
all_in_view v [] = true
all_in_view v (e ∷ es) = contains v e && all_in_view v es

are_preds_in : View → Label → Bool
unfolding all_in_view
are_preds_in v (thread_start creation) = contains v creation
are_preds_in v (thread_join finish) = contains v finish
are_preds_in v (read rf) = contains v rf
are_preds_in v (write none readers) = all_in_view v readers
are_preds_in v (write (some co_pred) readers) = contains v co_pred && all_in_view v readers
are_preds_in v other = true

-- `areSCPredsInView`
pub are_sc_preds_in_view : Graph → View → Event → Bool
unfolding are_preds_in
are_sc_preds_in_view g v e = are_preds_in v (g.label_of e)

-- The variables of a round.
pub record Round : Type 0 where
  pub curr : View
  pub exists : Bool
  pub done : Bool

-- Thread `i` from its event `j` on, as far as it can go, `left` events at most.
advance : Graph → ℕ → ℕ → ℕ → Round → Round
advance g zero j i r = r
advance g (suc left) j i r =
    let next : Event = record { thread = i; index = suc j } in
    let further =
      advance g left (suc j) i (record r { curr = update_idx r.curr next; exists = true }) in
    if are_sc_preds_in_view g r.curr next then further else record r { done = false }

-- Threads i, i + 1, …, as many as there are rounds left.
threads : Graph → ℕ → ℕ → Round → Round
unfolding advance
threads g zero i r = r
threads g (suc left) i r =
    threads g left (suc i) (advance g (get_max g.full i - get_max r.curr i) (get_max r.curr i) i r)

pub one_round : Graph → View → Round
unfolding threads
one_round g v = threads g g.num_threads 0 (record { curr = v; exists = false; done = true })

-- `doesExecutionExceedBound`, from the view `v` on; `none` is the abort of a round without an event.
exceeds_from : Graph → ℕ → View → Option Bool
exceeds_from g zero v =
    let r = one_round g v in if not r.exists then none else if r.done then some false else some true
exceeds_from g (suc bound) v =
    let r = one_round g v in
    let again = exceeds_from g bound r.curr in
    if not r.exists then none else if r.done then some false else again

pub does_execution_exceed_bound : Graph → ℕ → Option Bool
unfolding exceeds_from
does_execution_exceed_bound g bound = exceeds_from g bound empty_view

one_more : Option ℕ → Option ℕ
one_more none = none
one_more (some n) = some (suc n)

-- `calculate`, of so many rounds at most; `none` is the abort, and the end of the fuel.
calculate_from : Graph → ℕ → View → Option ℕ
unfolding one_more
calculate_from g zero v = none
calculate_from g (suc fuel) v =
    let r = one_round g v in
    let again = one_more (calculate_from g fuel r.curr) in
    if r.done then some 0 else if not r.exists then none else again

pub calculate : Graph → ℕ → Option ℕ
unfolding calculate_from
calculate g fuel = calculate_from g fuel empty_view
