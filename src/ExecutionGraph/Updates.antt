-- ===== src/ExecutionGraph/Updates.antt =====
-- src/ExecutionGraph.hpp and src/ExecutionGraph.cpp: atomic updates, which are a read and the write after it,
-- and the reads that may be revisited.
use rustmc.Prelude.{
  ℕ, suc, ◌-◌, Bool, false, not, ◌&&◌, ◌||◌, List, [], ◌∷◌, ◌++◌, Option, none, some, ltb, ◌==◌,
  if◌then◌else◌, ◌>>=◌,
}
use rustmc.Event.{Event, init, same, is_initializer}
use rustmc.SAddr.{SAddr, align}
use rustmc.MemAccess.{AAccess, overlaps}
use rustmc.EventLabel.{
  EventLabel, Role, Rfs, MemAccess, read, write, is_fai_read, is_cas_read, is_fai_write,
  is_cas_write,
}
use rustmc.ExecutionGraph.{ExecutionGraph, get_event_label, get_thread_size, at_loc}
use rustmc.ExecutionGraph.Change.{mem_in, rfs_in, access_at}
use rustmc.View.{View, get_max}
use rustmc.ExecutionGraph.Searches.{addr_of}

unfoldable pub is_rmw_store : Role → Bool
unfolding is_fai_write is_cas_write
is_rmw_store r = is_fai_write r || is_cas_write r

-- The label after a read is a write of an update to the same address.
is_store_of : SAddr → Option Role → Bool
unfolding is_rmw_store mem_in
is_store_of a none = false
is_store_of a (some r) = elim (mem_in r) as (λ x. Bool) [
  | none ↦ false
  | some m ↦ is_rmw_store r && addr_of m == a
]

role_after : ExecutionGraph → Event → Option Role
unfolding get_event_label
role_after g e = elim (get_event_label g (record e { index = suc e.index })) as (λ x. Option Role) [
  | none ↦ none
  | some l ↦ some (EventLabel.role l)
]

pub is_rmw_load : ExecutionGraph → EventLabel → Bool
unfolding is_fai_read is_cas_read mem_in is_store_of role_after
is_rmw_load g l =
    if not (is_cas_read l.role) && not (is_fai_read l.role)
    then false
    else if suc l.pos.index == get_thread_size g l.pos.thread
    then false
    else elim (mem_in l.role) as (λ x. Bool) [
      | none ↦ false
      | some m ↦ is_store_of (addr_of m) (role_after g l.pos)
    ]

-- The label with the least stamp, the first of those with it.
min_stamp : ExecutionGraph → Event → ℕ → List Event → Option Event
unfolding get_event_label
min_stamp g best s [] = some best
min_stamp g best s (e ∷ es) = get_event_label g e >>= λ l.
    min_stamp g (if ltb (EventLabel.stamp l) s then e else best)
      (if ltb (EventLabel.stamp l) s then EventLabel.stamp l else s) es

pub get_minimum_stamp_event : ExecutionGraph → List Event → Option Event
unfolding min_stamp get_event_label
get_minimum_stamp_event g [] = some init
get_minimum_stamp_event g (e ∷ es) =
    get_event_label g e >>= λ l. min_stamp g e (EventLabel.stamp l) es

-- A reader of the part `a` of a store.
reads_part : Event → AAccess → Rfs → Bool
reads_part w a [] = false
reads_part w a ((x, b) ∷ rfs) = (same x w && overlaps a b) || reads_part w a rfs

-- The reads of updates among the readers, other than `p`, that read a common part of the store.
pending_in : ExecutionGraph → Event → Event → AAccess → List Event → Option (List Event)
unfolding get_event_label is_rmw_load reads_part rfs_in
pending_in g p w a [] = some []
pending_in g p w a (r ∷ rs) = get_event_label g r >>= λ l. pending_in g p w a rs >>= λ rest. some (
    if is_rmw_load g l && (not (same r p) && reads_part w a (rfs_in (EventLabel.role l)))
    then r ∷ rest
    else rest)

-- `OverlapFilter`, and `init_rf_begin(a)`: the readers whose accesses overlap.
unfoldable pub overlaps_at : AAccess → Option AAccess → Bool
overlaps_at a none = false
overlaps_at a (some b) = overlaps a b

unfoldable pub overlapping : ExecutionGraph → AAccess → List Event → List Event
unfolding access_at overlaps_at
overlapping g a [] = []
overlapping g a (r ∷ rs) =
    if overlaps_at a (access_at g r) then r ∷ overlapping g a rs else overlapping g a rs

readers_for : ExecutionGraph → AAccess → Role → Option (List Event)
unfolding overlapping at_loc
readers_for g a (write k m v at rs) = some rs
readers_for g a role =
    at_loc g.init_rfs (align (AAccess.addr a)) >>= λ es. some (overlapping g a es)

-- The label that the readers must read from: the store, or else the initializer.
source_of : Event → Role → Event
source_of w (write k m v at rs) = w
source_of w role = init

pending_all : ExecutionGraph → Event → Rfs → Option (List Event)
unfolding source_of pending_in readers_for get_event_label
pending_all g p [] = some []
pending_all g p ((w, a) ∷ rfs) = get_event_label g w >>= λ l.
    readers_for g a (EventLabel.role l) >>= λ rs.
    pending_in g p (source_of w (EventLabel.role l)) a rs >>= λ here.
    pending_all g p rfs >>= λ rest. some (here ++ rest)

pending_of : ExecutionGraph → Event → Role → Option Event
unfolding pending_all get_minimum_stamp_event
pending_of g p (read k m (x ∷ rfs)) =
    pending_all g p (x ∷ rfs) >>= λ es. get_minimum_stamp_event g es
pending_of g p role = none

-- An abort when the write of an update has no read before it, or this reads from nothing.
pub get_pending_rmw : ExecutionGraph → EventLabel → Option Event
unfolding is_rmw_store pending_of get_event_label
get_pending_rmw g l =
    let p : Event = record (l.pos) { index = l.pos.index - 1 } in
    let found = get_event_label g p >>= λ r. pending_of g p (EventLabel.role r) in
    if not (is_rmw_store l.role) then some init else if l.pos.index == 0 then none else found

-- `getRevisitable`
is_candidate_read : AAccess → EventLabel → Bool
is_candidate_read a l = elim (EventLabel.role l) as (λ x. Bool) [
  | read k m rfs ↦
      overlaps (MemAccess.access m) a && (EventLabel.revisitable l && MemAccess.maximal m)
  | _ ↦ false
]

loads_in : AAccess → ℕ → List EventLabel → ℕ → List Event
unfolding is_candidate_read
loads_in a seen [] i = []
loads_in a seen (l ∷ ls) i =
    if ltb seen i && is_candidate_read a l
    then EventLabel.pos l ∷ loads_in a seen ls (suc i)
    else loads_in a seen ls (suc i)

loads_from : AAccess → View → List (List EventLabel) → ℕ → List Event
unfolding loads_in
loads_from a v [] i = []
loads_from a v (thr ∷ thrs) i = loads_in a (get_max v i) thr 0 ++ loads_from a v thrs (suc i)

-- The reads that were not added after the pending update.
not_after : ExecutionGraph → ℕ → List Event → Option (List Event)
unfolding get_event_label
not_after g s [] = some []
not_after g s (e ∷ es) = get_event_label g e >>= λ l.
    not_after g s es >>= λ rest. some (if ltb s (EventLabel.stamp l) then rest else e ∷ rest)

pub get_revisitable : ExecutionGraph → EventLabel → View → Option (List Event)
unfolding get_pending_rmw loads_from not_after mem_in get_event_label
get_revisitable g l v = elim (mem_in l.role) as (λ x. Option (List Event)) [
  | none ↦ none
  | some m ↦ get_pending_rmw g l >>= λ p.
      if is_initializer p
      then some (loads_from (MemAccess.access m) v g.events 0)
      else get_event_label g p >>= λ c.
          not_after g (EventLabel.stamp c) (loads_from (MemAccess.access m) v g.events 0)
]
