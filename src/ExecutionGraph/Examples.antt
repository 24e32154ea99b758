-- ===== src/ExecutionGraph/Examples.antt =====
-- A graph of src/ExecutionGraph.cpp with two threads: thread 1 reads what thread 0 writes.
use mathlib.Core.Option.{none-ne-some}
use rustmc.Prelude.{
  ◌||◌, ◌==◌, ℕ, zero, suc, ◌≡◌, refl, true, List, [], ◌∷◌, Option, none, some, leb, arith, ap,
}
use rustmc.Event.{Event}
use rustmc.SAddr.{align}
use rustmc.View.{contains}
use rustmc.SVal.{SVal}
use rustmc.MemAccess.{AAccess, unsigned}
use rustmc.EventLabel.{
  EventLabel, Role, MemAccess, WriteKind, ReadKind, BlockKind, init, thread_start, write, read,
  block, monotonic,
}
use rustmc.EventLabel.Classes.{ranges_agree, RangesAgree}
use rustmc.ExecutionGraph.{ExecutionGraph, get_event_label, thread_at, has_event, at_loc, or_empty}
use rustmc.ExecutionGraph.Change.{change_rfs, change_rf, store_rfs, mem_in, rfs_in}
use rustmc.ExecutionGraph.Cut.{get_view_from_stamp, compress_stamps_after}
use rustmc.ExecutionGraph.Readers.{
  role_at, is_listed, listed_at, listed_in, is_init_reader, reads_from, access_in, has_store,
  is_target, HasReaders,
}
use rustmc.ExecutionGraph.Coherence.{is_co_maximal, add_store_to_co, remove_store_from_co}
use rustmc.ExecutionGraph.Maximal.{add_store_to_co_maximal, remove_store_from_co-add_store_to_co}
use rustmc.ExecutionGraph.Scans.{
  is_store_read_by_exclusive_read, is_store_read_by_settled_rmw, is_settled,
}
use rustmc.ExecutionGraph.Exclusive.{any_reader, is_exclusive_at, is_store_read-readers}
use rustmc.ExecutionGraph.Validate.{
  validate, all_valid, all_valid_in, is_valid_role, are_readers_right, are_rfs_right, lists_reader,
  count_rmw_loads, validate-readers,
}
use rustmc.Event.{same}
use rustmc.View.{View}
use rustmc.EventLabel.{is_fai_write, is_cas_write, kind, write_number}
use rustmc.ExecutionGraph.{contains_pos, contains_pos_non_empty}
use rustmc.ExecutionGraph.Updates.{is_rmw_store}
use rustmc.ExecutionGraph.Change.{rfs_in}
use rustmc.MemAccess.{overlaps}
use rustmc.SAddr.{same_storage_as}
use rustmc.Prelude.{sym}
use rustmc.Prelude.{◌>>=◌, ◌&&◌}
use mathlib.Core.Option.{some-injective}
use rustmc.ExecutionGraph.Change.{access_at}
use rustmc.ExecutionGraph.Rewire.{IsRewired, change_rfs-IsRewired}
use rustmc.ExecutionGraph.Single.{change_rf-IsRewired}
use rustmc.ExecutionGraph.Aborts.{change_rfs_aborts}
use rustmc.ExecutionGraph.Stamps.{IsIncreasing, get_view_from_stamp-contains}
use rustmc.ExecutionGraph.Compress.{
  stamps, stamps_in, above, up_to, numbers_from, compress_stamps_after-IsCompressed,
}

abbrev pub at : ℕ → ℕ → Event
at t i = record { thread = t; index = i }

abbrev pub access : AAccess
access = record { addr = 8; size = 4; atype = unsigned }

abbrev pub mem : MemAccess
mem = record { access = access; maximal = true; alloc = none }

abbrev pub label : Event → ℕ → Role → EventLabel
label e s r = record {
  pos = e;
  ordering = monotonic;
  has_stamp = true;
  stamp = s;
  revisitable = true;
  role = r;
}

abbrev pub value : SVal
value = 7

abbrev pub two : ExecutionGraph
two = record {
  events =
      (label (at 0 0) 0 init
        ∷ label (at 0 1) 3 (write WriteKind.plain mem value 0 (at 1 1 ∷ []))
        ∷ [])
      ∷ (label (at 1 0) 1 (thread_start (at 0 0))
          ∷ label (at 1 1) 5 (read ReadKind.plain mem ((at 0 1, access) ∷ []))
          ∷ [])
      ∷ [];
  timestamp = 6;
  coherence = (8, at 0 1 ∷ []) ∷ [];
  init_rfs = (8, []) ∷ [];
}

HasReaders_two :
    (t i u j : ℕ) → is_listed two (at t i) (at u j) ≡ reads_from (role_at two (at t i)) (at u j)
unfolding align at_loc or_empty is_listed listed_at listed_in is_init_reader reads_from role_at
    access_in mem_in rfs_in has_store get_event_label has_event
HasReaders_two zero zero zero zero = refl
HasReaders_two zero zero zero (suc zero) = refl
HasReaders_two zero zero zero (suc (suc j)) = ground arith
HasReaders_two zero zero (suc zero) zero = refl
HasReaders_two zero zero (suc zero) (suc zero) = refl
HasReaders_two zero zero (suc zero) (suc (suc j)) = ground arith
HasReaders_two zero zero (suc (suc u)) j = ground arith
HasReaders_two zero (suc zero) zero zero = refl
HasReaders_two zero (suc zero) zero (suc zero) = refl
HasReaders_two zero (suc zero) zero (suc (suc j)) = ground arith
HasReaders_two zero (suc zero) (suc zero) zero = refl
HasReaders_two zero (suc zero) (suc zero) (suc zero) = refl
HasReaders_two zero (suc zero) (suc zero) (suc (suc j)) = ground arith
HasReaders_two zero (suc zero) (suc (suc u)) j = ground arith
HasReaders_two zero (suc (suc i)) zero zero = ground arith
HasReaders_two zero (suc (suc i)) zero (suc zero) = ground arith
HasReaders_two zero (suc (suc i)) zero (suc (suc j)) = ground arith
HasReaders_two zero (suc (suc i)) (suc zero) zero = ground arith
HasReaders_two zero (suc (suc i)) (suc zero) (suc zero) = ground arith
HasReaders_two zero (suc (suc i)) (suc zero) (suc (suc j)) = ground arith
HasReaders_two zero (suc (suc i)) (suc (suc u)) j = ground arith
HasReaders_two (suc zero) zero zero zero = refl
HasReaders_two (suc zero) zero zero (suc zero) = refl
HasReaders_two (suc zero) zero zero (suc (suc j)) = ground arith
HasReaders_two (suc zero) zero (suc zero) zero = refl
HasReaders_two (suc zero) zero (suc zero) (suc zero) = refl
HasReaders_two (suc zero) zero (suc zero) (suc (suc j)) = ground arith
HasReaders_two (suc zero) zero (suc (suc u)) j = ground arith
HasReaders_two (suc zero) (suc zero) zero zero = refl
HasReaders_two (suc zero) (suc zero) zero (suc zero) = refl
HasReaders_two (suc zero) (suc zero) zero (suc (suc j)) = ground arith
HasReaders_two (suc zero) (suc zero) (suc zero) zero = refl
HasReaders_two (suc zero) (suc zero) (suc zero) (suc zero) = refl
HasReaders_two (suc zero) (suc zero) (suc zero) (suc (suc j)) = ground arith
HasReaders_two (suc zero) (suc zero) (suc (suc u)) j = ground arith
HasReaders_two (suc zero) (suc (suc i)) zero zero = ground arith
HasReaders_two (suc zero) (suc (suc i)) zero (suc zero) = ground arith
HasReaders_two (suc zero) (suc (suc i)) zero (suc (suc j)) = ground arith
HasReaders_two (suc zero) (suc (suc i)) (suc zero) zero = ground arith
HasReaders_two (suc zero) (suc (suc i)) (suc zero) (suc zero) = ground arith
HasReaders_two (suc zero) (suc (suc i)) (suc zero) (suc (suc j)) = ground arith
HasReaders_two (suc zero) (suc (suc i)) (suc (suc u)) j = ground arith
HasReaders_two (suc (suc t)) i zero zero = ground arith
HasReaders_two (suc (suc t)) i zero (suc zero) = ground arith
HasReaders_two (suc (suc t)) i zero (suc (suc j)) = ground arith
HasReaders_two (suc (suc t)) i (suc zero) zero = ground arith
HasReaders_two (suc (suc t)) i (suc zero) (suc zero) = ground arith
HasReaders_two (suc (suc t)) i (suc zero) (suc (suc j)) = ground arith
HasReaders_two (suc (suc t)) i (suc (suc u)) j = ground arith

two-HasReaders : HasReaders two
two-HasReaders r w = HasReaders_two r.thread r.index w.thread w.index

-- The read is made to read from the initializer instead.
abbrev from_init : List (Event × AAccess)
from_init = (at 0 0, access) ∷ []

init_target :
    (t i : ℕ)
    → has_store (at t i) from_init ≡ true
    → is_target (role_at two (at t i)) (at t i) ≡ true
unfolding has_store is_target role_at get_event_label
init_target zero zero h = refl
init_target zero (suc i) h = absurd (ground (arith, h))
init_target (suc t) i h = absurd (ground (arith, h))

change_rfs-IsRewired_example :
    (h : ExecutionGraph) × (change_rfs two (at 1 1) from_init ≡ some h)
    × IsRewired two (at 1 1) from_init h
unfolding role_at get_event_label
change_rfs-IsRewired_example =
    change_rfs-IsRewired two (at 1 1) from_init ReadKind.plain mem ((at 0 1, access) ∷ [])
      two-HasReaders refl (λ w. init_target w.thread w.index)

change_rf-IsRewired_example :
    (h : ExecutionGraph) × (change_rf two (at 1 1) none ≡ some h)
    × IsRewired two (at 1 1) (store_rfs access none) h
unfolding role_at get_event_label
change_rf-IsRewired_example =
    change_rf-IsRewired two (at 1 1) none ReadKind.plain mem ((at 0 1, access) ∷ []) two-HasReaders
      refl (ground arith) (λ w e. absurd (none-ne-some w e))

change_rfs_aborts_example : change_rfs two (at 1 1) ((at 1 0, access) ∷ []) ≡ none
unfolding has_store is_target role_at get_event_label
change_rfs_aborts_example =
    change_rfs_aborts two (at 1 1) (at 1 0) ((at 1 0, access) ∷ []) refl refl

abbrev stamp_of : Option EventLabel → ℕ
stamp_of none = 0
stamp_of (some l) = EventLabel.stamp l

reader-IsIncreasing : IsIncreasing (thread_at two 1)
reader-IsIncreasing zero zero k l h p q = omega (arith, ap stamp_of p, ap stamp_of q)
reader-IsIncreasing zero (suc zero) k l h p q = omega (arith, ap stamp_of p, ap stamp_of q)
reader-IsIncreasing (suc zero) zero k l h p q = absurd (omega (arith, h))
reader-IsIncreasing (suc zero) (suc zero) k l h p q = omega (arith, ap stamp_of p, ap stamp_of q)
reader-IsIncreasing i (suc (suc j)) k l h p q = absurd (none-ne-some _ q)
reader-IsIncreasing (suc (suc i)) j k l h p q = absurd (none-ne-some _ p)

get_view_from_stamp-contains_example :
    contains (get_view_from_stamp two 4) (at 1 1) ≡ (1 == 0 || leb 5 4)
unfolding get_event_label
get_view_from_stamp-contains_example =
    get_view_from_stamp-contains two 4 (at 1 1)
      (label (at 1 1) 5 (read ReadKind.plain mem ((at 0 1, access) ∷ []))) reader-IsIncreasing refl

compress_stamps_after-IsCompressed_example :
    (ExecutionGraph.timestamp (compress_stamps_after two 1) ≡ 4)
    × (above 1 (stamps (ExecutionGraph.events (compress_stamps_after two 1))) ≡ 2 ∷ 3 ∷ [])
    × (up_to 1 (stamps (ExecutionGraph.events (compress_stamps_after two 1))) ≡ 0 ∷ 1 ∷ [])
unfolding above up_to stamps stamps_in numbers_from
compress_stamps_after-IsCompressed_example = compress_stamps_after-IsCompressed two 1 (ground arith)

ranges_agree_example : RangesAgree (block BlockKind.join)
ranges_agree_example = ranges_agree (block BlockKind.join)

is_store_read-readers_example :
    (is_store_read_by_exclusive_read two (at 0 1) 8
      ≡ any_reader (is_exclusive_at two 8) two (at 1 1 ∷ []))
    × ((before : View)
        → is_store_read_by_settled_rmw two (at 0 1) 8 before
          ≡ any_reader (λ l. is_exclusive_at two 8 l && is_settled two before l) two (at 1 1 ∷ []))
unfolding role_at get_event_label
is_store_read-readers_example =
    is_store_read-readers two (at 0 1) WriteKind.plain mem value 0 (at 1 1 ∷ []) two-HasReaders refl
      8

-- The second write of thread 0, behind the graph's last label.
abbrev three : ExecutionGraph
three = record two {
  events =
      (label (at 0 0) 0 init
        ∷ label (at 0 1) 3 (write WriteKind.plain mem value 0 (at 1 1 ∷ []))
        ∷ label (at 0 2) 6 (write WriteKind.plain mem value 0 [])
        ∷ [])
      ∷ thread_at two 1
      ∷ [];
}

add_store_to_co_maximal_example :
    (h : ExecutionGraph) × (add_store_to_co three (at 0 2) 1 ≡ some h)
    × ((e : Event) → is_co_maximal h access e ≡ some (same e (at 0 2)))
unfolding overlaps same_storage_as align at_loc access_at mem_in get_event_label
add_store_to_co_maximal_example =
    add_store_to_co_maximal three access (at 0 2) (at 0 1 ∷ []) refl refl refl refl

remove_store_from_co-add_store_to_co_example :
    (add_store_to_co three (at 0 2) 0 >>= λ h. remove_store_from_co h (at 0 2)) ≡ some three
unfolding overlaps same_storage_as align at_loc access_at mem_in get_event_label has_event
remove_store_from_co-add_store_to_co_example =
    remove_store_from_co-add_store_to_co three access (at 0 2) (at 0 1 ∷ []) 0 refl refl refl

pub two-IsPlaced :
    (t i : ℕ) (l : EventLabel) → get_event_label two (at t i) ≡ some l → EventLabel.pos l ≡ at t i
unfolding get_event_label
two-IsPlaced zero zero l h = sym (ap EventLabel.pos (some-injective _ _ h))
two-IsPlaced zero (suc zero) l h = sym (ap EventLabel.pos (some-injective _ _ h))
two-IsPlaced zero (suc (suc i)) l h = absurd (none-ne-some _ h)
two-IsPlaced (suc zero) zero l h = sym (ap EventLabel.pos (some-injective _ _ h))
two-IsPlaced (suc zero) (suc zero) l h = sym (ap EventLabel.pos (some-injective _ _ h))
two-IsPlaced (suc zero) (suc (suc i)) l h = absurd (none-ne-some _ h)
two-IsPlaced (suc (suc t)) i l h = absurd (none-ne-some _ h)

two_validates : validate two ≡ true
unfolding validate all_valid all_valid_in is_valid_role are_readers_right are_rfs_right lists_reader
    count_rmw_loads contains_pos contains_pos_non_empty get_event_label role_at reads_from rfs_in
    has_store has_event is_rmw_store is_fai_write is_cas_write kind write_number
two_validates = refl

validate-readers_example :
    has_event (at 1 1) (at 1 1 ∷ []) ≡ reads_from (role_at two (at 1 1)) (at 0 1)
unfolding role_at get_event_label
validate-readers_example =
    validate-readers two (at 0 1) WriteKind.plain mem value 0 (at 1 1 ∷ [])
      (λ e. two-IsPlaced e.thread e.index) two_validates refl (at 1 1)
