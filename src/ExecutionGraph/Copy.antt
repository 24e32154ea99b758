-- ===== src/ExecutionGraph/Copy.antt =====
-- src/ExecutionGraph.cpp: `getCopyUpTo` and `copyGraphUpTo`. Of the clock the code asks for the greatest index of a
-- thread and whether it contains an event. Where the code uses the null pointer of a failed cast, or a
-- position out of range, the answer is `none`.
pub mod Origin
pub mod Steps
pub mod Links
pub mod Coverage
pub mod Contents
pub mod Examples
use rustmc.Prelude.{
  ℕ, zero, suc, ◌-◌, Bool, true, false, not, ◌&&◌, List, [], ◌∷◌, ◌++◌, Option, none, some, ◌==◌,
  if◌then◌else◌, ◌>>=◌, length, take,
}
use rustmc.Event.{Event, init}
use rustmc.SAddr.{SAddr}
use rustmc.View.{View, get_max, contains}
use rustmc.EventLabel.{
  EventLabel, Role, Rfs, OtherKind, MemAccess, AtomicOrdering, thread_start, thread_join,
  thread_finish, read, write, malloc, free, other, acquire, not_atomic,
}
use rustmc.ExecutionGraph.{
  ExecutionGraph, LocMap, get_event_label, get_num_threads, contains_pos, at_loc, or_empty,
  has_event, remove_if, add_label_to_graph,
}
use rustmc.ExecutionGraph.Change.{change_role, change_readers, mem_in, access_at, add_init_rf}
use rustmc.ExecutionGraph.Coherence.{word_of, readers_of, track_coherence_at_loc, add_store_to_co}

pub record VectorClock : Type 0 where
  pub max : ℕ → ℕ
  pub holds : Event → Bool

pub clock_of : View → VectorClock
clock_of v = record { max = get_max v; holds = contains v }

-- The constructor `ExecutionGraph()`.
abbrev initializer_label : EventLabel
initializer_label = record {
  pos = init;
  ordering = acquire;
  has_stamp = false;
  stamp = 0;
  revisitable = true;
  role = Role.init;
}

new_graph : Option ExecutionGraph
new_graph =
    add_label_to_graph (record { events = [] ∷ []; timestamp = 0; coherence = []; init_rfs = [] })
      initializer_label

-- `createHoleLabel`
create_hole_label : Event → EventLabel
create_hole_label e = record {
  pos = e;
  ordering = not_atomic;
  has_stamp = false;
  stamp = 0;
  revisitable = true;
  role = other OtherKind.empty;
}

empty_threads : ℕ → List (List EventLabel)
empty_threads zero = []
empty_threads (suc n) = [] ∷ empty_threads n

pub resize_events : ℕ → List (List EventLabel) → List (List EventLabel)
unfolding empty_threads
resize_events n thrs = take n thrs ++ empty_threads (n - length thrs)

-- The events: a label that was added, with what is done to it.
pub note_label : VectorClock → EventLabel → ExecutionGraph → ExecutionGraph
unfolding change_role change_readers remove_if mem_in track_coherence_at_loc
note_label v l h =
    let trimmed = change_role (change_readers (remove_if (λ r. not (v.holds r)))) h l.pos in
    elim (mem_in l.role) as (λ x. ExecutionGraph) [
      | none ↦ trimmed
      | some m ↦ track_coherence_at_loc trimmed (MemAccess.access m)
    ]

copy_event : ExecutionGraph → VectorClock → Event → ExecutionGraph → Option ExecutionGraph
unfolding create_hole_label note_label contains_pos get_event_label
copy_event g v e h =
    let copied =
      get_event_label g e >>= λ l. add_label_to_graph h l >>= λ k. some (note_label v l k) in
    if not (v.holds e)
    then add_label_to_graph h (create_hole_label e)
    else if contains_pos g e
    then copied
    else some h

copy_events : ExecutionGraph → VectorClock → ℕ → ℕ → ℕ → ExecutionGraph → Option ExecutionGraph
unfolding copy_event
copy_events g v i zero j h = some h
copy_events g v i (suc left) j h =
    copy_event g v (record { thread = i; index = j }) h >>= λ k. copy_events g v i left (suc j) k

copy_thread : ExecutionGraph → VectorClock → ℕ → ExecutionGraph → Option ExecutionGraph
unfolding copy_events get_event_label
copy_thread g v i h =
    let started =
      get_event_label g (record { thread = i; index = 0 }) >>= λ l. add_label_to_graph h l in
    (if i == 0 then some h else started) >>= λ k. copy_events g v i (v.max i) 1 k

pub copy_threads : ExecutionGraph → VectorClock → ℕ → ℕ → ExecutionGraph → Option ExecutionGraph
unfolding copy_thread
copy_threads g v zero i h = some h
copy_threads g v (suc left) i h = copy_thread g v i h >>= λ k. copy_threads g v left (suc i) k

-- The pointers: the label at a position of the copy passes a test of its class.
passes_at : (Role → Bool) → ExecutionGraph → Event → Option Bool
unfolding get_event_label
passes_at p h e = get_event_label h e >>= λ l. some (p l.role)

is_malloc : Role → Bool
is_malloc (malloc a n d ms) = true
is_malloc role = false

is_free_role : Role → Bool
is_free_role (free k a x) = true
is_free_role role = false

is_join_role : Role → Bool
is_join_role (thread_join t) = true
is_join_role role = false

pub is_read_role : Role → Bool
is_read_role (read k m rfs) = true
is_read_role role = false

pub is_write_role : Role → Bool
is_write_role (write k m v at rs) = true
is_write_role role = false

pub is_access_role : Role → Bool
is_access_role (read k m rfs) = true
is_access_role (write k m v at rs) = true
is_access_role role = false

point : (Role → Bool) → ExecutionGraph → VectorClock → Option Event → Option (Option Event)
unfolding passes_at
point p h v none = some none
point p h v (some e) =
    let there = passes_at p h e >>= λ b. some (if b then some e else none) in
    if v.holds e then there else some none

point_alloc : ExecutionGraph → Option Event → Option (Option Event)
unfolding passes_at contains_pos is_malloc
point_alloc h none = some none
point_alloc h (some e) =
    let there = passes_at is_malloc h e >>= λ b. some (if b then some e else none) in
    if contains_pos h e then there else some none

unfoldable keep_rfs : ExecutionGraph → Rfs → Rfs
unfolding contains_pos
keep_rfs h [] = []
keep_rfs h ((w, a) ∷ rfs) = if contains_pos h w then (w, a) ∷ keep_rfs h rfs else keep_rfs h rfs

-- `addReader` and `addAccess`, of each position in the list that the clock contains.
unfoldable add_all :
    (Role → Bool) → ExecutionGraph → VectorClock → List Event → List Event → Option (List Event)
unfolding passes_at has_event
add_all p h v [] new = some new
add_all p h v (e ∷ es) new =
    let rest = add_all p h v es new in
    let added = add_all p h v es (new ++ e ∷ []) in
    if not (v.holds e)
    then rest
    else passes_at p h e >>= λ b. if b && not (has_event e new) then added else none

accesses_of : Role → Option (List Event)
accesses_of (malloc a n d ms) = some ms
accesses_of role = none

-- The role of the label at the same position in the graph that is copied.
original : ExecutionGraph → Event → Option Role
unfolding get_event_label
original g e = get_event_label g e >>= λ l. some l.role

unfoldable relink : ExecutionGraph → ExecutionGraph → VectorClock → Event → Role → Option Role
unfolding keep_rfs add_all point point_alloc original readers_of accesses_of is_join_role
    is_free_role is_malloc is_read_role is_access_role
relink g h v e (read k m rfs) =
    point_alloc h m.alloc >>= λ a. some (read k (record m { alloc = a }) (keep_rfs h rfs))
relink g h v e (write k m x at rs) = original g e >>= λ o. readers_of o >>= λ old.
    add_all is_read_role h v old [] >>= λ new.
    point_alloc h m.alloc >>= λ a. some (write k (record m { alloc = a }) x at new)
relink g h v e (thread_finish j) = point is_join_role h v j >>= λ p. some (thread_finish p)
relink g h v e (malloc x n d ms) = point is_free_role h v d >>= λ f. original g e >>= λ o.
    accesses_of o >>= λ old. add_all is_access_role h v old [] >>= λ new. some (malloc x n f new)
relink g h v e (free k x a) = point is_malloc h v a >>= λ p. some (free k x p)
relink g h v e role = some role

unfoldable relink_thread :
    ExecutionGraph → ExecutionGraph → VectorClock → List EventLabel → Option (List EventLabel)
unfolding relink
relink_thread g h v [] = some []
relink_thread g h v (l ∷ ls) = relink g h v (EventLabel.pos l) (EventLabel.role l) >>= λ r.
    relink_thread g h v ls >>= λ rest. some (record l { role = r } ∷ rest)

unfoldable relink_threads :
    ExecutionGraph
    → ExecutionGraph
    → VectorClock
    → List (List EventLabel)
    → Option (List (List EventLabel))
unfolding relink_thread
relink_threads g h v [] = some []
relink_threads g h v (thr ∷ thrs) =
    relink_thread g h v thr >>= λ t. relink_threads g h v thrs >>= λ rest. some (t ∷ rest)

-- The coherence order and the readers of the initial values.
unfoldable copy_stores : VectorClock → List Event → ExecutionGraph → Option ExecutionGraph
unfolding passes_at is_write_role at_loc or_empty access_at
copy_stores v [] h = some h
copy_stores v (w ∷ ws) h =
    let skip = copy_stores v ws h in
    let copied = passes_at is_write_role h w >>= λ b. access_at h w >>= λ a.
    if b
    then (add_store_to_co h w (length (or_empty (at_loc h.coherence (word_of a)))) >>= λ k.
        copy_stores v ws k)
    else none in
    if v.holds w then copied else skip

unfoldable copy_coherence : VectorClock → LocMap → ExecutionGraph → Option ExecutionGraph
unfolding copy_stores
copy_coherence v [] h = some h
copy_coherence v ((a, ws) ∷ m) h = copy_stores v ws h >>= λ k. copy_coherence v m k

unfoldable copy_readers : VectorClock → List Event → ExecutionGraph → Option ExecutionGraph
unfolding passes_at is_read_role access_at
copy_readers v [] h = some h
copy_readers v (r ∷ rs) h =
    let skip = copy_readers v rs h in
    let copied = passes_at is_read_role h r >>= λ b.
    access_at h r >>= λ a. if b then (add_init_rf h a r >>= λ k. copy_readers v rs k) else none in
    if v.holds r then copied else skip

unfoldable copy_init_rfs :
    ExecutionGraph → VectorClock → LocMap → ExecutionGraph → Option ExecutionGraph
unfolding copy_readers at_loc
copy_init_rfs g v [] h = some h
copy_init_rfs g v ((a, ws) ∷ m) h =
    at_loc g.init_rfs a >>= λ rs. copy_readers v rs h >>= λ k. copy_init_rfs g v m k

unfoldable pub copy_graph_up_to :
    ExecutionGraph → VectorClock → ExecutionGraph → Option ExecutionGraph
unfolding copy_threads resize_events relink_threads copy_coherence copy_init_rfs
copy_graph_up_to g v o =
    let n = get_num_threads g in
    copy_threads g v n 0 (record o { timestamp = g.timestamp; events = resize_events n o.events })
    >>= λ h. relink_threads g h v h.events >>= λ thrs.
        copy_coherence v g.coherence (record h { events = thrs }) >>= λ k.
        copy_init_rfs g v g.coherence k

unfoldable pub get_copy_up_to : ExecutionGraph → VectorClock → Option ExecutionGraph
unfolding new_graph copy_graph_up_to
get_copy_up_to g v = new_graph >>= λ o. copy_graph_up_to g v o
