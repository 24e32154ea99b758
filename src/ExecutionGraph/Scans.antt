-- ===== src/ExecutionGraph/Scans.antt =====
-- src/ExecutionGraph.hpp and src/ExecutionGraph.cpp: questions that are answered by a walk over all labels.
use Prim.Native.Nat.{bit_and}
use rustmc.Prelude.{
  ℕ, zero, suc, Bool, true, false, not, ◌&&◌, ◌||◌, List, [], ◌∷◌, ◌++◌, Option, none, some, ◌==◌,
  if◌then◌else◌, ◌>>=◌, get_elem?,
}
use rustmc.Event.{Event, same, is_initializer}
use rustmc.SAddr.{SAddr}
use rustmc.View.{View, contains}
use rustmc.MemAccess.{AAccess, overlaps}
use rustmc.EventLabel.{EventLabel, Role, ReadKind, Rfs, read, write}
use rustmc.ExecutionGraph.{ExecutionGraph, get_next_label, thread_at}
use rustmc.ExecutionGraph.Searches.{addr_of}
use rustmc.ExecutionGraph.Updates.{is_rmw_load, is_rmw_store, get_pending_rmw}

unfoldable pub any_in : (EventLabel → Bool) → List EventLabel → Bool
any_in p [] = false
any_in p (l ∷ ls) = p l || any_in p ls

unfoldable pub any_label : (EventLabel → Bool) → List (List EventLabel) → Bool
unfolding any_in
any_label p [] = false
any_label p (thr ∷ thrs) = any_in p thr || any_label p thrs

-- `collectAllEvents`: positions of the labels of a thread, from the index `j` on, and of all threads.
collect_in : (EventLabel → Bool) → ℕ → ℕ → List EventLabel → List Event
collect_in p i j [] = []
collect_in p i j (l ∷ ls) =
    let rest = collect_in p i (suc j) ls in
    if p l then record { thread = i; index = j } ∷ rest else rest

collect_from : (EventLabel → Bool) → ℕ → List (List EventLabel) → List Event
unfolding collect_in
collect_from p i [] = []
collect_from p i (thr ∷ thrs) = collect_in p i 0 thr ++ collect_from p (suc i) thrs

pub collect_all_events : (EventLabel → Bool) → ExecutionGraph → List Event
unfolding collect_from
collect_all_events p g = collect_from p 0 g.events

-- `getPreviousLabelST`: the last label in front of `j` that passes the test.
previous_st : (EventLabel → Bool) → List EventLabel → ℕ → Option (Option EventLabel)
previous_st p thr zero = some none
previous_st p thr (suc j) =
    let rest = previous_st p thr j in get_elem? thr j >>= λ l. if p l then some (some l) else rest

pub get_previous_label_st :
    (EventLabel → Bool) → ExecutionGraph → EventLabel → Option (Option EventLabel)
unfolding previous_st
get_previous_label_st p g l = previous_st p (thread_at g l.pos.thread) l.pos.index

-- The positions of the reads that read a part of the access from the initializer.
reads_init : AAccess → Rfs → Bool
reads_init a [] = false
reads_init a ((w, b) ∷ rfs) = (is_initializer w && overlaps b a) || reads_init a rfs

is_init_read : AAccess → Role → Bool
unfolding reads_init
is_init_read a (read k m rfs) = reads_init a rfs
is_init_read a role = false

init_reads : AAccess → List EventLabel → List Event
unfolding is_init_read
init_reads a [] = []
init_reads a (l ∷ ls) =
    if is_init_read a (EventLabel.role l)
    then EventLabel.pos l ∷ init_reads a ls
    else init_reads a ls

init_reads_from : AAccess → List (List EventLabel) → List Event
unfolding init_reads
init_reads_from a [] = []
init_reads_from a (thr ∷ thrs) = init_reads a thr ++ init_reads_from a thrs

pub get_init_rfs_at_loc : ExecutionGraph → AAccess → List Event
unfolding init_reads_from
get_init_rfs_at_loc g a = init_reads_from a g.events

-- A read at the address reads from the store.
unfoldable pub reads_store : Event → Bool → Rfs → Bool
reads_store w here [] = false
reads_store w here ((v, b) ∷ rfs) = (same v w && here) || reads_store w here rfs

unfoldable pub reads_at : Event → SAddr → Role → Bool
unfolding reads_store
reads_at w x (read k m rfs) = reads_store w (addr_of m == x) rfs
reads_at w x role = false

unfoldable pub is_exclusive : ExecutionGraph → Event → SAddr → EventLabel → Bool
unfolding reads_at
is_exclusive g w x l = if is_rmw_load g l then reads_at w x l.role else false

unfoldable pub is_store_read_by_exclusive_read : ExecutionGraph → Event → SAddr → Bool
unfolding any_label is_exclusive
is_store_read_by_exclusive_read g w x = any_label (is_exclusive g w x) g.events

-- `WriteAttr::RevBlocker` of the write after a read.
abbrev rev_blocker : ℕ
rev_blocker = 4

is_rev_blocker : Role → Bool
is_rev_blocker (write k m v at rs) = not (bit_and at rev_blocker == 0)
is_rev_blocker role = false

blocks_revisits : Option (Option EventLabel) → Bool
unfolding is_rev_blocker
blocks_revisits (some (some l)) = is_rev_blocker (EventLabel.role l)
blocks_revisits o = false

unfoldable pub is_settled : ExecutionGraph → View → EventLabel → Bool
unfolding blocks_revisits get_next_label
is_settled g v l =
    (not l.revisitable && not (blocks_revisits (get_next_label g l.pos))) || contains v l.pos

unfoldable pub is_store_read_by_settled_rmw : ExecutionGraph → Event → SAddr → View → Bool
unfolding any_label is_exclusive is_settled
is_store_read_by_settled_rmw g w x v =
    any_label (λ l. is_exclusive g w x l && is_settled g v l) g.events

pub violates_atomicity : ExecutionGraph → EventLabel → Option Bool
violates_atomicity g l =
    get_pending_rmw g l >>= λ e. some (is_rmw_store l.role && not (is_initializer e))

pub is_confirming : Role → Bool
is_confirming (read ReadKind.confirming m rfs) = true
is_confirming (read ReadKind.confirming_cas m rfs) = true
is_confirming role = false
