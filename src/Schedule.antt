-- ===== src/Schedule.antt =====
-- src/GenMCDriver.cpp: which thread the driver schedules next. What the functions read of the
-- interpreter, of the execution graph and of the configuration is the record `Driver`; a random
-- number from 0 to a bound is what `draw` answers for the bound. Each function answers the thread that
-- it schedules, with `none` for the `false` of the source; an outer `none` is an abort.
pub mod Symmetric
pub mod Normal
pub mod Selection
pub mod Random
pub mod Next
use rustmc.Prelude.{
  ℕ, zero, suc, ◌+◌, ◌-◌, ◌%◌, Bool, true, false, not, ◌&&◌, List, [], ◌∷◌, ◌++◌, Option, none,
  some, ◌==◌, if◌then◌else◌, ◌>>=◌, length, get_elem?,
}

pub data SchedulePolicy : Type 0 where
  ltr wf wfr arbitrary : SchedulePolicy

-- What the label that was added last is to `scheduleAtomicity`; a CAS has a read and an expected value.
pub data LastLabel : Type 0 where
  fai_read : LastLabel
  cas_read : ℕ → ℕ → LastLabel
  other_label : LastLabel

pub record Driver : Type 0 where
  pub num_threads : ℕ
  -- the interpreter: whether a thread's stack is empty, and whether its next instruction is a load
  pub stack_empty : ℕ → Bool
  pub is_next_load : ℕ → Bool
  -- the graph: whether a thread's last label ends it or is a block for an optional read, whether
  -- the event that the thread executes next is in the graph, and its symmetric predecessor
  pub is_terminator : ℕ → Bool
  pub is_read_opt_block : ℕ → Bool
  pub contains_next : ℕ → Bool
  pub symm_pred_tid : ℕ → Option ℕ
  pub last_label : LastLabel
  pub last_thread : ℕ
  -- the driver and its configuration
  pub thread_prios : List ℕ
  pub moot : Bool
  pub halting : Bool
  pub in_estimation_mode : Bool
  pub has_bound : Bool
  pub symmetry_reduction : Bool
  pub schedule_policy : SchedulePolicy
  pub draw : ℕ → ℕ

pub is_schedulable : Driver → ℕ → Bool
is_schedulable g i = not (g.stack_empty i) && not (g.is_terminator i)

-- The first thread of a list that can be scheduled.
first_schedulable : Driver → List ℕ → Option ℕ
unfolding is_schedulable
first_schedulable g [] = none
first_schedulable g (i ∷ is) =
    let rest = first_schedulable g is in if is_schedulable g i then some i else rest

schedule_prioritized : Driver → Option (Option ℕ)
unfolding first_schedulable
schedule_prioritized g = elim g.thread_prios [
  | [] ↦ some none
  | i ∷ is ↦ if g.has_bound then none else some (first_schedulable g (i ∷ is))
]

-- The first of the threads `i`, `i + 1`, ..., `k` of them, that passes a test.
pub first_from : (ℕ → Bool) → ℕ → ℕ → Option ℕ
first_from p zero i = none
first_from p (suc k) i = let rest = first_from p k (suc i) in if p i then some i else rest

pub schedule_next_ltr : Driver → Option ℕ
unfolding first_from is_schedulable
schedule_next_ltr g = first_from (is_schedulable g) g.num_threads 0

-- The loop over the symmetric predecessors; the answer is `none` only when the fuel runs out.
symm_loop : Driver → ℕ → Option ℕ → ℕ → Option ℕ
unfolding is_schedulable
symm_loop g fuel none first_sched = some first_sched
symm_loop g zero (some symm) first_sched = none
symm_loop g (suc fuel) (some symm) first_sched =
    symm_loop g fuel (g.symm_pred_tid symm) (if is_schedulable g symm then symm else first_sched)

-- A predecessor has a smaller number, so there are at most `tid` rounds.
pub get_first_schedulable_symmetric : Driver → ℕ → Option ℕ
unfolding symm_loop
get_first_schedulable_symmetric g tid =
    if g.symmetry_reduction then symm_loop g tid (g.symm_pred_tid tid) tid else some tid

-- The first loop of two policies: a thread whose next event is in the graph.
pub schedule_by_graph : Driver → Option ℕ
unfolding first_from is_schedulable
schedule_by_graph g = first_from (λ i. is_schedulable g i && g.contains_next i) g.num_threads 0

-- The second loop of `scheduleNextWF`: the thread that satisfies the policy, and the fallback.
wf_loop : Driver → ℕ → ℕ → Option ℕ → Option ℕ × Option ℕ
unfolding is_schedulable
wf_loop g zero i fallback = (none, fallback)
wf_loop g (suc k) i fallback =
    let kept : Option ℕ = elim fallback [ none ↦ some i | some j ↦ some j ] in
    let skip = wf_loop g k (suc i) fallback in
    let next = wf_loop g k (suc i) kept in
    if not (is_schedulable g i)
    then skip
    else if not (g.is_next_load i)
    then (some i, kept)
    else next

-- The representative of the chosen thread, if one was chosen.
pub schedule_symmetric : Driver → Option ℕ → Option (Option ℕ)
unfolding get_first_schedulable_symmetric
schedule_symmetric g none = some none
schedule_symmetric g (some i) = get_first_schedulable_symmetric g i >>= λ t. some (some t)

-- The choice of the policy, or else the fallback.
or_fallback : Option ℕ × Option ℕ → Option ℕ
or_fallback (some i, fallback) = some i
or_fallback (none, fallback) = fallback

pub schedule_next_wf : Driver → Option (Option ℕ)
unfolding schedule_by_graph wf_loop or_fallback schedule_symmetric
schedule_next_wf g = elim (schedule_by_graph g) [
  | some i ↦ some (some i)
  | none ↦ schedule_symmetric g (or_fallback (wf_loop g g.num_threads 0 none))
]

-- The threads `i`, `i + 1`, ..., `k` of them, that pass a test.
threads_from : (ℕ → Bool) → ℕ → ℕ → List ℕ
threads_from p zero i = []
threads_from p (suc k) i = let rest = threads_from p k (suc i) in if p i then i ∷ rest else rest

-- `writes` if there are any, else `nonwrites`.
selection : Driver → List ℕ
unfolding threads_from is_schedulable
selection g =
    elim (threads_from (λ i. is_schedulable g i && not (g.is_next_load i)) g.num_threads 0) [
      | [] ↦ threads_from (λ i. is_schedulable g i && g.is_next_load i) g.num_threads 0
      | i ∷ is ↦ i ∷ is
    ]

-- `selection[dist(rng)]`, which is not defined out of range.
schedule_selected : Driver → List ℕ → Option (Option ℕ)
unfolding schedule_symmetric
schedule_selected g [] = some none
schedule_selected g (i ∷ is) =
    get_elem? (i ∷ is) (g.draw (length (i ∷ is) - 1)) >>= λ t. schedule_symmetric g (some t)

pub schedule_next_wfr : Driver → Option (Option ℕ)
unfolding schedule_by_graph selection schedule_selected
schedule_next_wfr g = elim (schedule_by_graph g) [
  | some i ↦ some (some i)
  | none ↦ schedule_selected g (selection g)
]

-- The first of the threads `j + random`, ..., `k` of them, modulo the number of threads.
random_from : Driver → ℕ → ℕ → ℕ → Option ℕ
unfolding is_schedulable
random_from g random zero j = none
random_from g random (suc k) j =
    let rest = random_from g random k (suc j) in
    if is_schedulable g ((j + random) % g.num_threads)
    then some ((j + random) % g.num_threads)
    else rest

pub schedule_next_random : Driver → Option (Option ℕ)
unfolding random_from schedule_symmetric
schedule_next_random g = schedule_symmetric g (random_from g (g.draw g.num_threads) g.num_threads 0)

unfoldable pub schedule_normal : Driver → Option (Option ℕ)
unfolding schedule_next_ltr schedule_next_wf schedule_next_wfr schedule_next_random
schedule_normal g = if g.in_estimation_mode then schedule_next_wfr g else elim g.schedule_policy [
  | ltr ↦ some (schedule_next_ltr g)
  | wf ↦ schedule_next_wf g
  | wfr ↦ schedule_next_wfr g
  | arbitrary ↦ schedule_next_random g
]

pub schedule_atomicity : Driver → Option ℕ
schedule_atomicity g = elim g.last_label [
  | fai_read ↦ some g.last_thread
  | cas_read v expected ↦ if v == expected then some g.last_thread else none
  | other_label ↦ none
]

-- The thread whose blocked read is taken up again.
reschedule_reads : Driver → Option (Option ℕ)
unfolding first_from
reschedule_reads g = elim (first_from g.is_read_opt_block g.num_threads 0) [
  | none ↦ some none
  | some i ↦ if g.has_bound then none else some (some i)
]

-- A step that schedules no thread leaves it to the next.
abbrev or_else : Option (Option ℕ) → Option (Option ℕ) → Option (Option ℕ)
or_else none rest = none
or_else (some none) rest = rest
or_else (some (some i)) rest = some (some i)

pub schedule_next : Driver → Option (Option ℕ)
unfolding schedule_atomicity schedule_prioritized schedule_normal reschedule_reads
schedule_next g =
    let steps =
      or_else (some (schedule_atomicity g))
        (or_else (schedule_prioritized g) (or_else (schedule_normal g) (reschedule_reads g))) in
    if g.moot then some none else if g.halting then some none else steps
