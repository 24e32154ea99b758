-- ===== src/RoundBound/Rounds.antt =====
-- src/RoundBoundDecider.cpp: the test of the bound agrees with the number of rounds.
use rustmc.Prelude.{
  ℕ, zero, suc, ◌+◌, ◌-◌, ◌≤◌, ◌<◌, ◌≡◌, ◌≢◌, refl, true, false, some, ltb, ◌==◌, inl, inr,
  Bool-cases, Option-cases, arith, ap, ◌∙◌,
}
use rustmc.Event.{Event}
use rustmc.View.{View, empty_view, get_max, update_idx}
use rustmc.View.Laws.{get_max-update_idx}
use rustmc.RoundBound.{
  Graph, Round, advance, threads, one_round, exceeds_from, does_execution_exceed_bound, one_more,
  calculate_from, calculate, are_sc_preds_in_view,
}

-- Some thread has events that are not scheduled yet.
pub record IsUnfinished (g : Graph) (v : View) : Type 0 where
  pub thread : ℕ
  pub in_graph : thread < g.num_threads
  pub left : get_max v thread < get_max g.full thread

-- A thread's advance: other threads stay, it reaches the end unless it stops, and where it has an event to
-- go and none was scheduled it has stopped.
record IsAdvanced (g : Graph) (i : ℕ) (r r1 : Round) : Type 0 where
  others : (t : ℕ) → t ≢ i → get_max r1.curr t ≡ get_max r.curr t
  stopped : r1.done ≡ false → r.done ≡ true → get_max r1.curr i < get_max g.full i
  kept : r.done ≡ false → r1.done ≡ false
  moved : r.exists ≡ true → r1.exists ≡ true
  stuck : get_max r.curr i < get_max g.full i → r1.exists ≡ false → r1.done ≡ false

advance-IsAdvanced :
    (g : Graph) (left j i : ℕ) (r : Round)
    → get_max r.curr i ≡ j
    → left ≡ get_max g.full i - j
    → IsAdvanced g i r (advance g left j i r)
unfolding advance
advance-IsAdvanced g zero j i r e l = record {
  others = λ t n. refl;
  stopped = λ a b. absurd (ground (arith, a, b));
  kept = λ a. a;
  moved = λ a. a;
  stuck = λ a b. absurd (omega (arith, a, e, l));
}
advance-IsAdvanced g (suc left) j i r e l =
    elim (Bool-cases (are_sc_preds_in_view g r.curr (record { thread = i; index = suc j }))) [
      | inl c ↦
          let next : Event = record { thread = i; index = suc j } in
          let r' : Round = record r { curr = update_idx r.curr next; exists = true } in
          let ih =
            advance-IsAdvanced g left (suc j) i r'
              (ground (arith, get_max-update_idx r.curr next i, e)) (omega (arith, l)) in
          rw c (record {
            others = λ t n. ih.others t n ∙ ground (arith, get_max-update_idx r.curr next t, n);
            stopped = ih.stopped;
            kept = ih.kept;
            moved = λ a. ih.moved refl;
            stuck = λ a b. absurd (ground (arith, ih.moved refl, b));
          })
      | inr c ↦ rw c (record {
        others = λ t n. refl;
        stopped = λ a b. omega (arith, e, l);
        kept = λ a. refl;
        moved = λ a. a;
        stuck = λ a b. refl;
      })
    ]

-- One thread of a round, as `threads` runs it.
turn : Graph → ℕ → Round → Round
turn g i r = advance g (get_max g.full i - get_max r.curr i) (get_max r.curr i) i r

turn-IsAdvanced : (g : Graph) (i : ℕ) (r : Round) → IsAdvanced g i r (turn g i r)
unfolding turn
turn-IsAdvanced g i r =
    advance-IsAdvanced g (get_max g.full i - get_max r.curr i) (get_max r.curr i) i r refl refl

threads-kept :
    (g : Graph) (left i : ℕ) (r : Round) → r.done ≡ false → (threads g left i r).done ≡ false
unfolding threads turn
threads-kept g zero i r d = d
threads-kept g (suc left) i r d =
    threads-kept g left (suc i) (turn g i r) ((turn-IsAdvanced g i r).kept d)

threads-moved :
    (g : Graph) (left i : ℕ) (r : Round) → r.exists ≡ true → (threads g left i r).exists ≡ true
unfolding threads turn
threads-moved g zero i r d = d
threads-moved g (suc left) i r d =
    threads-moved g left (suc i) (turn g i r) ((turn-IsAdvanced g i r).moved d)

-- A thread below `i` that is not at its end.
abbrev Behind : Graph → ℕ → View → Type 0
Behind g i v = (t : ℕ) × (t < i) × (get_max v t < get_max g.full t)

threads-Behind :
    (g : Graph) (left i : ℕ) (r : Round)
    → (r.done ≡ false → Behind g i r.curr)
    → (threads g left i r).done ≡ false
    → Behind g (i + left) (threads g left i r).curr
unfolding threads turn
threads-Behind g zero i r b d = let (t, l, n) = b d in (t, omega (arith, l), n)
threads-Behind g (suc left) i r b d =
    let a = turn-IsAdvanced g i r in
    let (t, l, n) =
      threads-Behind g left (suc i) (turn g i r)
        (λ e. elim (Bool-cases r.done) [
          | inl y ↦ (i, omega arith, a.stopped e y)
          | inr y ↦
              let (t, l, n) = b y in
              (t, omega (arith, l), omega (arith, n, a.others t (λ q. omega (arith, l, q))))
        ])
        d in
    (t, omega (arith, l), n)

threads-stuck :
    (g : Graph) (left i t : ℕ) (r : Round)
    → i ≤ t
    → t < i + left
    → get_max r.curr t < get_max g.full t
    → (threads g left i r).exists ≡ false
    → (threads g left i r).done ≡ false
unfolding threads turn
threads-stuck g zero i t r a b n x = absurd (omega arith)
threads-stuck g (suc left) i t r a b n x =
    let adv = turn-IsAdvanced g i r in
    elim (Bool-cases (t == i)) [
      | inl e ↦ threads-kept g left (suc i) (turn g i r) (
          adv.stuck
            (ground (
              arith,
              n,
              e,
              ap (get_max r.curr) {x = t} {y = i},
              ap (get_max g.full) {x = t} {y = i},
            ))
            (elim (Bool-cases (turn g i r).exists) [
              | inl y ↦ absurd (ground (arith, x, threads-moved g left (suc i) (turn g i r) y))
              | inr y ↦ y
            ]))
      | inr e ↦
          threads-stuck g left (suc i) t (turn g i r) (ground (arith, e)) (omega arith)
            (omega (arith, n, adv.others t (ground (arith, e)))) x
    ]

one_round-IsUnfinished :
    (g : Graph) (v : View) → (one_round g v).done ≡ false → IsUnfinished g (one_round g v).curr
unfolding one_round
one_round-IsUnfinished g v d =
    let (t, l, n) =
      threads-Behind g g.num_threads 0 (record { curr = v; exists = false; done = true })
        (λ e. absurd (ground (arith, e))) d in
    record { thread = t; in_graph = omega (arith, l); left = n }

one_round-exists :
    (g : Graph) (v : View)
    → IsUnfinished g v
    → (one_round g v).done ≡ true
    → (one_round g v).exists ≡ true
unfolding one_round
one_round-exists g v u d = elim (Bool-cases (one_round g v).exists) [
  | inl y ↦ y
  | inr y ↦ absurd (
      ground (
        arith,
        d,
        threads-stuck g g.num_threads 0 u.thread (record { curr = v; exists = false; done = true })
            (omega arith) (omega (arith, u.in_graph)) u.left y,
      ))
]

exceeds_from-calculate_from :
    (g : Graph) (fuel bound n : ℕ) (v : View)
    → IsUnfinished g v
    → calculate_from g fuel v ≡ some n
    → exceeds_from g bound v ≡ some (ltb bound n)
unfolding exceeds_from calculate_from one_more
exceeds_from-calculate_from g zero bound n v u c = absurd (ground (arith, c))
exceeds_from-calculate_from g (suc fuel) zero n v u c = ground (arith, c, one_round-exists g v u)
exceeds_from-calculate_from g (suc fuel) (suc bound) n v u c =
    elim (Bool-cases (one_round g v).done) [
      | inl d ↦ ground (arith, c, d, one_round-exists g v u d)
      | inr d ↦ elim (Option-cases (calculate_from g fuel (one_round g v).curr)) [
        | inl e ↦ absurd (ground (arith, c, d, e))
        | inr p ↦ ground (
          arith,
          c,
          d,
          p.1,
          exceeds_from-calculate_from g fuel bound p.0 (one_round g v).curr
              (one_round-IsUnfinished g v d) p.1,
        )
      ]
    ]

-- When the graph has an event to schedule and `calculate` finds a number of rounds, the test of a bound
-- returns, and answers whether the bound is below that number.
pub does_execution_exceed_bound-calculate :
    (g : Graph) (fuel bound n : ℕ)
    → IsUnfinished g empty_view
    → calculate g fuel ≡ some n
    → does_execution_exceed_bound g bound ≡ some (ltb bound n)
unfolding does_execution_exceed_bound calculate
does_execution_exceed_bound-calculate g fuel bound n u c =
    exceeds_from-calculate_from g fuel bound n empty_view u c
