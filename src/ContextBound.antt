-- ===== src/ContextBound.antt =====
-- src/ContextBoundDecider.cpp: whether a sequentially consistent execution has a schedule with so many
-- context switches at most. The search goes backwards: it takes the last event off one thread at a time
-- until no event is left. The graph is what the code asks of it: labels with the events and values that
-- it looks up, and for an access the stores that overlap it in coherence order. An abort is `none`.
pub mod Search
pub mod Unwinding
pub mod Termination
pub mod Examples
use rustmc.Prelude.{
  ℕ, zero, suc, ◌+◌, ◌-◌, Bool, true, false, not, ◌&&◌, ◌||◌, List, [], ◌∷◌, Option, none, some,
  if◌then◌else◌, ◌==◌, ltb, leb, min, length, ◌>>=◌,
}
use rustmc.Event.{Event, next}
use rustmc.View.{View, get_max, set_max, contains}

pub data ReadKind : Type 0 where
  lock_cas barrier_wait plain_read : ReadKind

pub data WriteKind : Type 0 where
  unlock plain_write : WriteKind

-- A read has its access and the store that it reads; a write its access, its value and its readers. A
-- join has the end of the joined thread, and an end the join that waits for it.
pub data Label : Type 0 where
  thread_finish : Option Event → Label
  thread_create : ℕ → Label
  thread_join : Event → Label
  read : ReadKind → ℕ → Event → Label
  write : WriteKind → ℕ → ℕ → List Event → Label
  init_label : Label
  other : Label

pub record Graph : Type 0 where
  pub num_threads : ℕ
  pub full : View
  pub label_of : Event → Label
  pub is_terminator : Event → Bool
  -- the label after an event of its thread
  pub next_label : Event → Option Label
  -- the stores that overlap an access, the store that follows a store, the reads of the initial value
  pub co : ℕ → List Event
  pub co_imm_succ : Event → Option Event
  pub init_readers : ℕ → List Event

-- The last event of a thread in a view.
abbrev last_of : View → ℕ → Event
last_of v t = record { thread = t; index = get_max v t }

blocks : Label → Bool
blocks (thread_finish j) = false
blocks (thread_create c) = false
blocks (thread_join f) = true
blocks (read lock_cas a w) = true
blocks (read barrier_wait a w) = true
blocks (read plain_read a w) = false
blocks (write k a x rs) = false
blocks init_label = false
blocks other = false

pub can_block : Graph → View → ℕ → Bool
unfolding blocks
can_block g v t = elim (g.next_label (last_of v t)) [ none ↦ false | some l ↦ blocks l ]

pub any : (Event → Bool) → List Event → Bool
any p [] = false
any p (e ∷ es) = p e || any p es

-- The last event of a list that a view contains.
pub latest : View → List Event → Option Event
latest v [] = none
latest v (e ∷ es) = elim (latest v es) [
  | none ↦ if contains v e then some e else none
  | some w ↦ some w
]

-- An unlock that no completed lock has read.
is_free_unlock : View → Label → Bool
unfolding any
is_free_unlock v (thread_finish j) = false
is_free_unlock v (thread_create c) = false
is_free_unlock v (thread_join f) = false
is_free_unlock v (read k a w) = false
is_free_unlock v (write unlock a x rs) = not (any (λ e. contains v (next e)) rs)
is_free_unlock v (write plain_write a x rs) = false
is_free_unlock v init_label = false
is_free_unlock v other = false

is_lock_free : Graph → View → ℕ → Bool
unfolding any latest is_free_unlock
is_lock_free g v access = elim (latest v (g.co access)) [
  | none ↦ not (any (contains v) (g.init_readers access))
  | some w ↦ is_free_unlock v (g.label_of w)
]

value_of : Label → Option ℕ
value_of (thread_finish j) = none
value_of (thread_create c) = none
value_of (thread_join f) = none
value_of (read k a w) = none
value_of (write k a x rs) = some x
value_of init_label = none
value_of other = none

-- The barrier has the value that it was initialized with.
is_barrier_open : Graph → View → ℕ → Option Bool
unfolding latest value_of
is_barrier_open g v access = elim (g.co access) [
  | [] ↦ none
  | e ∷ es ↦ value_of (g.label_of e) >>= λ x.
      latest v (e ∷ es) >>= λ w. value_of (g.label_of w) >>= λ y. some (x == y)
]

lets_run : Graph → View → Label → Option Bool
unfolding is_lock_free is_barrier_open
lets_run g v (thread_finish j) = some true
lets_run g v (thread_create c) = some true
lets_run g v (thread_join f) = some (contains v f)
lets_run g v (read lock_cas a w) = some (is_lock_free g v a)
lets_run g v (read barrier_wait a w) = is_barrier_open g v a
lets_run g v (read plain_read a w) = some true
lets_run g v (write k a x rs) = some true
lets_run g v init_label = some true
lets_run g v other = some true

pub is_enabled : Graph → View → ℕ → Option Bool
unfolding lets_run
is_enabled g v t =
    if g.is_terminator (last_of v t)
    then some false
    else elim (g.next_label (last_of v t)) [ none ↦ some false | some l ↦ lets_run g v l ]

-- No event of the view follows: `succ` is the event that must not be contained, if there is one.
lacks : View → Option Event → Bool
lacks v none = true
lacks v (some e) = not (contains v e)

first_store : List Event → Option Event
first_store [] = none
first_store (e ∷ es) = some e

is_init : Label → Bool
is_init (thread_finish j) = false
is_init (thread_create c) = false
is_init (thread_join f) = false
is_init (read k a w) = false
is_init (write k a x rs) = false
is_init init_label = true
is_init other = false

-- The store after `w`, for an access.
store_after : Graph → ℕ → Event → Option Event
unfolding first_store is_init
store_after g access w =
    if is_init (g.label_of w) then first_store (g.co access) else g.co_imm_succ w

is_maximal : Graph → View → Event → Label → Bool
unfolding lacks store_after any
is_maximal g v e (thread_finish j) = lacks v j
is_maximal g v e (thread_create c) = get_max v c == 0
is_maximal g v e (thread_join f) = true
is_maximal g v e (read k a w) = elim (g.co a) [ [] ↦ true | s ∷ ss ↦ lacks v (store_after g a w) ]
is_maximal g v e (write k a x rs) =
    if any (contains v) rs
    then false
    else elim (g.co a) [ [] ↦ true | s ∷ ss ↦ lacks v (store_after g a e) ]
is_maximal g v e init_label = true
is_maximal g v e other = true

pub is_sc_maximal : Graph → View → ℕ → Bool
unfolding is_maximal
is_sc_maximal g v t = is_maximal g v (last_of v t) (g.label_of (last_of v t))

-- `shrinkViewByOne`; a thread that is shrunk has an event in the view.
pub shrink : View → ℕ → View
shrink v t = set_max v (record { thread = t; index = get_max v t - 1 })

-- A thread that the search goes on with: it has an event in the view, and this is maximal.
pub is_candidate : Graph → View → ℕ → Bool
is_candidate g v t = ltb 0 (get_max v t) && is_sc_maximal g v t

count_if : {A : Type 0} → (A → Bool) → List A → ℕ
count_if p [] = 0
count_if p (x ∷ xs) = let rest = count_if p xs in if p x then suc rest else rest

has_unstable : List Bool → Bool
has_unstable [] = false
has_unstable (b ∷ bs) = not b || has_unstable bs

-- The slack, of whether each label of each thread is stable.
get_slack : List (List Bool) → ℕ
unfolding count_if has_unstable
get_slack threads =
    min (count_if has_unstable threads - 1) (count_if (λ t. ltb 1 (length t)) threads - 2)
