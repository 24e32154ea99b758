-- ===== src/ContextBound/Examples.antt =====
-- A graph of src/ContextBoundDecider.cpp with two threads: thread 0 writes what thread 1 reads.
use rustmc.Prelude.{
  ℕ, zero, suc, ◌≡◌, refl, Bool, true, false, Bool-cases, inl, inr, [], ◌∷◌, none, some, ◌==◌,
  if◌then◌else◌, ◌<◌, arith,
}
use rustmc.Event.{Event}
use rustmc.View.{View, get_max, set_max, contains}
use rustmc.ContextBound.{
  Graph, Label, plain_write, plain_read, write, read, other, can_block, blocks, is_candidate,
  is_sc_maximal, is_maximal, any, lacks, store_after, is_init, shrink, is_enabled, lets_run,
}
use rustmc.ContextBound.Search.{
  does_prefix_exceed_bound, prefix_from, num_events, all_zero, unfold_prefix, unfold_loop,
  threads_loop, try, or_rest, is_switch, does_execution_exceed_bound, execution_loop,
}
use rustmc.ContextBound.Unwinding.{
  Unwinds, does_prefix_exceed_bound-Unwinds, does_execution_exceed_bound-Unwinds,
}
use rustmc.ContextBound.Termination.{IsExplorable, does_prefix_exceed_bound-answers}

abbrev at : ℕ → ℕ → Event
at t i = record { thread = t; index = i }

abbrev label_at : ℕ → ℕ → Label
label_at zero (suc zero) = write plain_write 0 7 (at 1 1 ∷ [])
label_at (suc zero) (suc zero) = read plain_read 0 (at 0 1)
label_at t i = other

abbrev cut : ℕ → ℕ → View
cut a b = record { view = a ∷ b ∷ [] }

abbrev two : Graph
two = record {
  num_threads = 2;
  full = cut 1 1;
  label_of = λ e. label_at e.thread e.index;
  is_terminator = λ e. false;
  next_label = λ e. if e.index == 0 then some (label_at e.thread 1) else none;
  co = λ a. at 0 1 ∷ [];
  co_imm_succ = λ e. none;
  init_readers = λ a. [];
}

data Stage : View → Type 0 where
  both : Stage (cut 1 1)
  written : Stage (cut 1 0)
  nothing : Stage (cut 0 0)

Stage-shrink : (v : View) (u : ℕ) → Stage v → is_candidate two v u ≡ true → Stage (shrink v u)
unfolding is_candidate is_sc_maximal is_maximal any lacks store_after is_init shrink get_max set_max
    contains
Stage-shrink v zero both c = absurd (ground (arith, c))
Stage-shrink v (suc zero) both c = written
Stage-shrink v (suc (suc u)) both c = absurd (ground (arith, c))
Stage-shrink v zero written c = nothing
Stage-shrink v (suc zero) written c = absurd (ground (arith, c))
Stage-shrink v (suc (suc u)) written c = absurd (ground (arith, c))
Stage-shrink v zero nothing c = absurd (ground (arith, c))
Stage-shrink v (suc zero) nothing c = absurd (ground (arith, c))
Stage-shrink v (suc (suc u)) nothing c = absurd (ground (arith, c))

Stage-next :
    (v : View)
    → Stage v
    → all_zero (View.view v) ≡ false
    → (u : ℕ) × (u < 2) × (is_candidate two v u ≡ true)
unfolding all_zero is_candidate is_sc_maximal is_maximal any lacks store_after is_init get_max
    contains
Stage-next v both z = (1, omega arith, refl)
Stage-next v written z = (0, omega arith, refl)
Stage-next v nothing z = absurd (ground (arith, z))

lets_run-two : (v : View) (u : ℕ) → lets_run two v (label_at u 1) ≡ some true
unfolding lets_run
lets_run-two v zero = refl
lets_run-two v (suc zero) = refl
lets_run-two v (suc (suc u)) = refl

is_enabled-two : (v : View) (u : ℕ) → (b : Bool) × (is_enabled two v u ≡ some b)
unfolding is_enabled
is_enabled-two v u = elim (Bool-cases (get_max v u == 0)) [
  | inl y ↦ (true, rw (y, lets_run-two v u) refl)
  | inr n ↦ (false, rw n refl)
]

two-IsExplorable : IsExplorable two Stage
two-IsExplorable = (Stage-shrink, Stage-next, λ v u s. is_enabled-two v u)

does_prefix_exceed_bound-answers_example :
    (a : Bool) × (does_prefix_exceed_bound two (cut 1 1) 0 0 ≡ some a)
does_prefix_exceed_bound-answers_example =
    does_prefix_exceed_bound-answers two Stage two-IsExplorable (cut 1 1) 0 0 both

two_prefix : does_prefix_exceed_bound two (cut 1 1) 0 0 ≡ some true
unfolding does_prefix_exceed_bound prefix_from num_events all_zero unfold_prefix unfold_loop
    can_block blocks is_candidate is_sc_maximal is_maximal any lacks store_after is_init shrink
    get_max set_max contains threads_loop try or_rest is_switch is_enabled lets_run
two_prefix = refl

does_prefix_exceed_bound-Unwinds_example : Unwinds two (cut 1 1) 0 0
does_prefix_exceed_bound-Unwinds_example =
    does_prefix_exceed_bound-Unwinds two (cut 1 1) 0 0 two_prefix

two_execution : does_execution_exceed_bound two 0 ≡ some false
unfolding does_execution_exceed_bound execution_loop does_prefix_exceed_bound prefix_from num_events
    all_zero unfold_prefix unfold_loop can_block blocks is_candidate is_sc_maximal is_maximal any
    lacks store_after is_init shrink get_max set_max contains threads_loop try or_rest is_switch
    is_enabled lets_run
two_execution = refl

does_execution_exceed_bound-Unwinds_example :
    (u : ℕ) × (is_candidate two (cut 1 1) u ≡ true) × Unwinds two (shrink (cut 1 1) u) u 0
does_execution_exceed_bound-Unwinds_example =
    does_execution_exceed_bound-Unwinds two 0 two_execution
