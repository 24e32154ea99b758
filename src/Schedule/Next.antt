-- ===== src/Schedule/Next.antt =====
-- src/GenMCDriver.cpp: the policies together, and the whole choice.
use mathlib.Core.Option.{some-injective, none-ne-some}
use rustmc.Prelude.{
  ◌-◌, ◌+◌, ◌==◌, ℕ, ◌<◌, ◌≡◌, refl, sym, ap, subst, ◌∙◌, ◌⊎◌, inl, inr, Bool, true, false,
  Bool-cases, List, [], ◌∷◌, Option, none, some, if◌then◌else◌, arith,
}
use rustmc.Schedule.{
  Driver, LastLabel, fai_read, cas_read, other_label, SchedulePolicy, ltr, wf, wfr, arbitrary,
  is_schedulable, first_schedulable, schedule_prioritized, first_from, schedule_next_ltr,
  schedule_normal, schedule_atomicity, reschedule_reads, or_else, schedule_next,
}
use rustmc.Schedule.Symmetric.{IsEarlier}
use rustmc.Schedule.Normal.{
  IsPick, IsChoice, first_from-IsFirst, schedule_next_ltr-IsPick, schedule_next_wf-IsChoice,
}
use rustmc.Schedule.Selection.{IsDraw, schedule_next_wfr-IsChoice}
use rustmc.Schedule.Random.{schedule_next_random-IsChoice}

by_policy :
    (g : Driver) (p : SchedulePolicy) (a b c d : Option (Option ℕ))
    → IsChoice g a
    → IsChoice g b
    → IsChoice g c
    → IsChoice g d
    → IsChoice g (elim p [ ltr ↦ a | wf ↦ b | wfr ↦ c | arbitrary ↦ d ])
by_policy g ltr a b c d h k l m = h
by_policy g wf a b c d h k l m = k
by_policy g wfr a b c d h k l m = l
by_policy g arbitrary a b c d h k l m = m

by_mode :
    (g : Driver) (e : Bool) (a b : Option (Option ℕ))
    → IsChoice g a
    → IsChoice g b
    → IsChoice g (if e then a else b)
by_mode g true a b h k = h
by_mode g false a b h k = k

-- When symmetric predecessors have smaller numbers and random draws stay within their bounds, every
-- policy ends without an abort. It schedules a thread that can be scheduled as long as there is one, and
-- answers that there is none only if no thread can be scheduled.
pub schedule_normal-IsChoice :
    (g : Driver) → IsEarlier g → IsDraw g → IsChoice g (schedule_normal g)
unfolding schedule_normal
schedule_normal-IsChoice g earlier draws =
    by_mode g g.in_estimation_mode _ _ (schedule_next_wfr-IsChoice g earlier draws) (
      by_policy g g.schedule_policy _ _ _ _ (schedule_next_ltr g, refl, schedule_next_ltr-IsPick g)
        (schedule_next_wf-IsChoice g earlier) (schedule_next_wfr-IsChoice g earlier draws)
        (schedule_next_random-IsChoice g earlier))

first_schedulable-IsSchedulable :
    (g : Driver) (is : List ℕ) (t : ℕ) → first_schedulable g is ≡ some t → is_schedulable g t ≡ true
unfolding first_schedulable
first_schedulable-IsSchedulable g [] t e = absurd (none-ne-some _ e)
first_schedulable-IsSchedulable g (i ∷ is) t e = elim (Bool-cases (is_schedulable g i)) [
  | inl y ↦
      let same : i ≡ t =
        some-injective _ _
          (subst (λ b. (if b then some i else first_schedulable g is) ≡ some t) y e) in
      subst (λ z. is_schedulable g z ≡ true) same y
  | inr n ↦
      first_schedulable-IsSchedulable g is t
        (subst (λ b. (if b then some i else first_schedulable g is) ≡ some t) n e)
]

prioritized :
    (g : Driver) (b : Bool) (is : List ℕ)
    → b ≡ false
    → (p : Option ℕ) × (elim is [
      | [] ↦ some none
      | j ∷ js ↦ if b then none else some (first_schedulable g (j ∷ js))
    ]
        ≡ some p)
      × ((t : ℕ) → p ≡ some t → is_schedulable g t ≡ true)
prioritized g b [] n = (none, refl, λ t e. absurd (none-ne-some _ e))
prioritized g b (j ∷ js) n = (
  first_schedulable g (j ∷ js),
  ap (λ b. if b then none else some (first_schedulable g (j ∷ js))) n,
  λ t e. first_schedulable-IsSchedulable g (j ∷ js) t e,
)

resumed :
    (b : Bool) (o : Option ℕ)
    → b ≡ false
    → elim o [ none ↦ some none | some i ↦ if b then none else some (some i) ] ≡ some o
resumed b none n = refl
resumed b (some i) n = ap (λ b. if b then none else some (some i)) n

-- The label that was added last is the read of an update that takes place: a fetch-and-add, or a
-- compare-and-swap that reads the value it expects.
pub data IsAtomic (g : Driver) : Type 0 where
  fetch_and_add : g.last_label ≡ fai_read → IsAtomic g
  succeeding_cas : {v : ℕ} → g.last_label ≡ cas_read v v → IsAtomic g

-- Why a thread is scheduled, or none.
abbrev pub IsReason : Driver → Option ℕ → Type 0
IsReason g p =
    ((p ≡ some g.last_thread) × IsAtomic g)
    ⊎ ((t : ℕ) × (p ≡ some t) × (¬ (IsAtomic g)) × (is_schedulable g t ≡ true))
    ⊎ ((¬ (IsAtomic g))
        × ((i : ℕ) → i < g.num_threads → is_schedulable g i ≡ false)
        × (((t : ℕ) × (p ≡ some t) × (t < g.num_threads) × (g.is_read_opt_block t ≡ true))
            ⊎ ((p ≡ none) × ((i : ℕ) → i < g.num_threads → g.is_read_opt_block i ≡ false))))

-- What `scheduleAtomicity` answers.
abbrev Atomicity : Driver → Option ℕ → Type 0
Atomicity g a = ((a ≡ some g.last_thread) × IsAtomic g) ⊎ ((a ≡ none) × (¬ (IsAtomic g)))

kind_of : LastLabel → ℕ
kind_of fai_read = 0
kind_of (cas_read v w) = 1
kind_of other_label = 2

distance : LastLabel → ℕ
distance (cas_read v w) = (v - w) + (w - v)
distance l = 0

not_cas : (g : Driver) (v w : ℕ) → g.last_label ≡ cas_read v w → v == w ≡ false → ¬ (IsAtomic g)
unfolding kind_of distance
not_cas g v w e n (fetch_and_add f) = absurd (omega (arith, ap kind_of (sym e ∙ f)))
not_cas g v w e n (succeeding_cas f) = absurd (ground (arith, n, ap distance (sym e ∙ f)))

not_other : (g : Driver) → g.last_label ≡ other_label → ¬ (IsAtomic g)
unfolding kind_of
not_other g e (fetch_and_add f) = absurd (omega (arith, ap kind_of (sym e ∙ f)))
not_other g e (succeeding_cas f) = absurd (omega (arith, ap kind_of (sym e ∙ f)))

Atomicity-by :
    (g : Driver) (l : LastLabel)
    → g.last_label ≡ l
    → Atomicity g (elim l [
      | fai_read ↦ some g.last_thread
      | cas_read v expected ↦ if v == expected then some g.last_thread else none
      | other_label ↦ none
    ])
Atomicity-by g fai_read e = inl (refl, fetch_and_add e)
Atomicity-by g (cas_read v w) e = elim (Bool-cases (v == w)) [
  | inl y ↦
      let equal : w ≡ v = ground (arith, y) in
      rw y (inl (refl, succeeding_cas (e ∙ ap (cas_read v) equal)))
  | inr n ↦ rw n (inr (refl, not_cas g v w e n))
]
Atomicity-by g other_label e = inr (refl, not_other g e)

schedule_atomicity-Atomicity : (g : Driver) → Atomicity g (schedule_atomicity g)
unfolding schedule_atomicity
schedule_atomicity-Atomicity g = Atomicity-by g g.last_label refl

chosen :
    (g : Driver) (a q p o : Option ℕ)
    → Atomicity g a
    → ((t : ℕ) → q ≡ some t → is_schedulable g t ≡ true)
    → IsPick g p
    → ((t : ℕ) × (o ≡ some t) × (t < g.num_threads) × (g.is_read_opt_block t ≡ true))
      ⊎ ((o ≡ none) × ((i : ℕ) → i < g.num_threads → g.is_read_opt_block i ≡ false))
    → (r : Option ℕ) × (or_else (some a) (or_else (some q) (or_else (some p) (some o))) ≡ some r)
      × IsReason g r
chosen g (some t) q p o (inl (e, y)) h k l = (some t, refl, inl (e, y))
chosen g (some t) q p o (inr (e, n)) h k l = absurd (none-ne-some _ (sym e))
chosen g none q p o (inl (e, y)) h k l = absurd (none-ne-some _ e)
chosen g none (some t) p o (inr (e, n)) h k l = (some t, refl, inr (inl (t, refl, n, h t refl)))
chosen g none none (some t) o (inr (e, n)) h (inl (u, c, b, s)) l =
    (some t, refl, inr (inl (u, c, n, s)))
chosen g none none (some t) o e h (inr (c, f)) l = absurd (none-ne-some _ (sym c))
chosen g none none none o e h (inl (u, c, b, s)) l = absurd (none-ne-some _ c)
chosen g none none none o (inr (e, n)) h (inr (c, f)) l = (o, refl, inr (inr (n, f, l)))

blocked_reads :
    (g : Driver)
    → ((t : ℕ) × (first_from g.is_read_opt_block g.num_threads 0 ≡ some t)
        × (t < g.num_threads)
        × (g.is_read_opt_block t ≡ true))
      ⊎ ((first_from g.is_read_opt_block g.num_threads 0 ≡ none)
          × ((i : ℕ) → i < g.num_threads → g.is_read_opt_block i ≡ false))
blocked_reads g = elim (first_from-IsFirst g.is_read_opt_block g.num_threads 0) [
  | inl (t, e, b, s) ↦ inl (t, e, omega (arith, b), s)
  | inr (e, f) ↦ inr (e, λ i b. f i (omega arith) (omega (arith, b)))
]

-- When the driver is neither moot nor halting and has no bound, and symmetric predecessors and random
-- draws are as for the policies, `scheduleNext` ends without an abort. It goes on with the last thread if
-- the label that was added last is a fetch-and-add read or a compare-and-swap read of the expected
-- value, or else with a thread that can be scheduled, or, only if no thread can be, with
-- a thread that has a blocked read; and it stops only if there is no such thread either.
pub schedule_next-IsReason :
    (g : Driver)
    → IsEarlier g
    → IsDraw g
    → g.moot ≡ false
    → g.halting ≡ false
    → g.has_bound ≡ false
    → (r : Option ℕ) × (schedule_next g ≡ some r) × IsReason g r
unfolding schedule_next schedule_prioritized reschedule_reads
schedule_next-IsReason g earlier draws m h b =
    let q = prioritized g g.has_bound g.thread_prios b in
    let p = schedule_normal-IsChoice g earlier draws in
    let o = first_from g.is_read_opt_block g.num_threads 0 in
    let is =
      chosen g (schedule_atomicity g) q.0 p.0 o (schedule_atomicity-Atomicity g) q.2 p.2
        (blocked_reads g) in
    let steps =
      or_else (some (schedule_atomicity g))
        (or_else (schedule_prioritized g) (or_else (schedule_normal g) (reschedule_reads g))) in
    (
      is.0,
      ap (λ c. if c then some none else if g.halting then some none else steps) m
          ∙ ap (λ c. if c then some none else steps) h
          ∙ ap
              (λ k.
                or_else (some (schedule_atomicity g))
                  (or_else k (or_else (schedule_normal g) (reschedule_reads g))))
              q.1
          ∙ ap
              (λ k.
                or_else (some (schedule_atomicity g))
                  (or_else (some q.0) (or_else k (reschedule_reads g))))
              p.1
          ∙ ap
              (λ k.
                or_else (some (schedule_atomicity g)) (or_else (some q.0) (or_else (some p.0) k)))
              (resumed g.has_bound o b)
          ∙ is.1,
      is.2,
    )
