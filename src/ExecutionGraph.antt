-- ===== src/ExecutionGraph.antt =====
-- src/ExecutionGraph.hpp and src/ExecutionGraph.cpp: the labels of each thread in program order, the
-- stores of each word in coherence order, and the reads of a word that read an initial value. A label's
-- position in the graph stands for a pointer to it, so a change of a label is a change of what stands at
-- the position. Stamps are 32-bit numbers. What is out of range in the source, and an abort, are the answer `none`.
pub mod Change
pub mod Cut
pub mod Stamps
pub mod Compress
pub mod Searches
pub mod Updates
pub mod Coherence
pub mod Scans
pub mod Exclusive
pub mod Maximal
pub mod Validate
pub mod Addition
pub mod Copy
pub mod Positions
pub mod Readers
pub mod Steps
pub mod Edits
pub mod Attach
pub mod Rewire
pub mod Single
pub mod Aborts
pub mod Examples
use rustmc.Prelude.{
  ℕ, zero, suc, ◌+◌, ◌-◌, ◌%◌, ◌^◌, Bool, true, false, not, ◌&&◌, ◌||◌, List, [], ◌∷◌, ◌++◌, Option,
  none, some, ltb, leb, ◌==◌, if◌then◌else◌, ◌>>=◌, length, get_elem?, get_or, set, take,
}
use rustmc.Event.{Event, same, is_initializer, next}
use rustmc.SAddr.{SAddr, align}
use rustmc.MemAccess.{AAccess, overlaps}
use rustmc.EventLabel.{
  EventLabel, Role, Rfs, MemAccess, read, write, other, is_read, is_write, is_fai_read, is_cas_read,
  is_fai_write, is_cas_write, is_empty, is_mem_access,
}

-- A map from words to lists of positions.
abbrev pub LocMap : Type 0
LocMap = List (SAddr × List Event)

pub record ExecutionGraph : Type 0 where
  pub events : List (List EventLabel)
  pub timestamp : ℕ
  pub coherence : LocMap
  pub init_rfs : LocMap

abbrev pub get_num_threads : ExecutionGraph → ℕ
get_num_threads g = length g.events

abbrev pub thread_at : ExecutionGraph → ℕ → List EventLabel
thread_at g t = get_or g.events t []

abbrev pub get_thread_size : ExecutionGraph → ℕ → ℕ
get_thread_size g t = length (thread_at g t)

unfoldable pub get_event_label : ExecutionGraph → Event → Option EventLabel
get_event_label g e = get_elem? (thread_at g e.thread) e.index

unfoldable pub contains_pos : ExecutionGraph → Event → Bool
contains_pos g e = ltb e.thread (get_num_threads g) && ltb e.index (get_thread_size g e.thread)

unfoldable pub contains_pos_non_empty : ExecutionGraph → Event → Bool
unfolding get_event_label
contains_pos_non_empty g e = elim (get_event_label g e) [
  | none ↦ false
  | some l ↦ not (is_empty l.role)
]

-- `getNextLabel` and `getPreviousLabel`: a null pointer is an inner `none`.
pub get_next_label : ExecutionGraph → Event → Option (Option EventLabel)
unfolding get_event_label
get_next_label g e =
    if suc e.index == get_thread_size g e.thread
    then some none
    else get_event_label g (next e) >>= λ l. some (some l)

pub get_previous_label : ExecutionGraph → Event → Option (Option EventLabel)
unfolding get_event_label
get_previous_label g e =
    if e.index == 0
    then some none
    else get_event_label g (record e { index = e.index - 1 }) >>= λ l. some (some l)

-- A label is changed in place.
unfoldable pub map_at {ℓ} : {A : Type ℓ} → (A → A) → List A → ℕ → List A
map_at f [] i = []
map_at f (x ∷ xs) zero = f x ∷ xs
map_at f (x ∷ xs) (suc i) = x ∷ map_at f xs i

unfoldable pub change_label : (EventLabel → EventLabel) → ExecutionGraph → Event → ExecutionGraph
unfolding map_at
change_label f g e = record g { events = map_at (λ thr. map_at f thr e.index) g.events e.thread }

-- `operator[]` and `at` of the maps from words.
unfoldable pub at_loc : LocMap → SAddr → Option (List Event)
at_loc [] a = none
at_loc ((b, es) ∷ m) a = let rest = at_loc m a in if b == a then some es else rest

unfoldable pub or_empty : Option (List Event) → List Event
or_empty none = []
or_empty (some es) = es

pub put_loc : LocMap → SAddr → List Event → LocMap
put_loc [] a fs = (a, fs) ∷ []
put_loc ((b, es) ∷ m) a fs =
    let rest = (b, es) ∷ put_loc m a fs in if b == a then (b, fs) ∷ m else rest

pub has_event : Event → List Event → Bool
has_event e [] = false
has_event e (f ∷ fs) = same e f || has_event e fs

pub remove_if : (Event → Bool) → List Event → List Event
remove_if p [] = []
remove_if p (e ∷ es) = if p e then remove_if p es else e ∷ remove_if p es

pub next_stamp : ExecutionGraph → ℕ × ExecutionGraph
next_stamp g = (g.timestamp, record g { timestamp = (g.timestamp + 1) % 2 ^ 32 })

-- The label with its stamp, which it gets unless it has one.
stamped : ExecutionGraph → EventLabel → ExecutionGraph × EventLabel
unfolding next_stamp
stamped g lab =
    let p = next_stamp g in
    if lab.has_stamp then (g, lab) else (p.1, record lab { has_stamp = true; stamp = p.0 })

-- At a position that exists there must be an empty label, which is replaced; behind the last position the
-- label is added.
place : ExecutionGraph → EventLabel → Option ExecutionGraph
place g lab =
    let at_end = record g { events = map_at (λ thr. thr ++ lab ∷ []) g.events lab.pos.thread } in
    let replaced = change_label (λ l. lab) g lab.pos in
    if ltb lab.pos.thread (get_num_threads g)
    then (if ltb lab.pos.index (get_thread_size g lab.pos.thread)
        then (get_event_label g lab.pos >>= λ l. if is_empty l.role then some replaced else none)
        else if lab.pos.index == get_thread_size g lab.pos.thread
        then some at_end
        else none)
    else none

unfoldable pub add_label_to_graph : ExecutionGraph → EventLabel → Option ExecutionGraph
unfolding stamped place change_label map_at get_event_label
add_label_to_graph g lab = let p = stamped g lab in place p.0 p.1
