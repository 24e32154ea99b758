-- ===== src/Examples/Scheduling.antt =====
-- Runs of the scheduling functions of src/GenMCDriver.cpp on three threads.
use rustmc.Prelude.{
  ◌⊎◌, ℕ, ◌≤◌, ◌≡◌, refl, true, false, [], Option, none, some, ◌==◌, if◌then◌else◌, min, arith,
}
use rustmc.Schedule.{
  Driver, wf, other_label, is_schedulable, get_first_schedulable_symmetric, schedule_normal,
  schedule_next,
}
use rustmc.Schedule.Symmetric.{IsEarlier, Precedes, get_first_schedulable_symmetric-IsFirst}
use rustmc.Schedule.Normal.{IsChoice}
use rustmc.Schedule.Selection.{IsDraw}
use rustmc.Schedule.Next.{IsReason, schedule_normal-IsChoice, schedule_next-IsReason}

-- Thread 0 is finished; threads 1 and 2 are symmetric, and thread 1 is at a load.
abbrev three : Driver
three = record {
  num_threads = 3;
  stack_empty = λ i. i == 0;
  is_next_load = λ i. i == 1;
  is_terminator = λ i. false;
  is_read_opt_block = λ i. false;
  contains_next = λ i. false;
  symm_pred_tid = λ i. if i == 2 then some 1 else none;
  last_label = other_label;
  last_thread = 0;
  thread_prios = [];
  moot = false;
  halting = false;
  in_estimation_mode = false;
  has_bound = false;
  symmetry_reduction = true;
  schedule_policy = wf;
  draw = λ b. min b 1;
}

three-IsEarlier : IsEarlier three
three-IsEarlier t u e = ground (arith, e)

three-IsDraw : IsDraw three
three-IsDraw b = omega arith

get_first_schedulable_symmetric-IsFirst_example :
    (t : ℕ) × (get_first_schedulable_symmetric three 2 ≡ some t)
    × (t ≤ 2)
    × ((is_schedulable three 2 ≡ true) → is_schedulable three t ≡ true)
    × ((true ≡ false) → t ≡ 2)
    × ((u : ℕ) → true ≡ true → Precedes three 2 u → is_schedulable three u ≡ true → t ≤ u)
    × ((t ≡ 2) ⊎ (Precedes three 2 t × (is_schedulable three t ≡ true)))
get_first_schedulable_symmetric-IsFirst_example =
    get_first_schedulable_symmetric-IsFirst three 2 three-IsEarlier

schedule_normal-IsChoice_example : IsChoice three (schedule_normal three)
schedule_normal-IsChoice_example = schedule_normal-IsChoice three three-IsEarlier three-IsDraw

-- The policy prefers thread 2, which thread 1 stands for.
schedules_the_first : schedule_normal three ≡ some (some 1)
unfolding schedule_normal
schedules_the_first = refl

schedule_next-IsReason_example : (r : Option ℕ) × (schedule_next three ≡ some r) × IsReason three r
schedule_next-IsReason_example =
    schedule_next-IsReason three three-IsEarlier three-IsDraw refl refl refl
