-- ===== src/ExecutionGraph/Copy/Examples.antt =====
-- The copy of a whole graph with two threads, by src/ExecutionGraph.cpp.
use rustmc.Prelude.{◌≡◌, refl, ap, ◌∙◌, true, not, ◌&&◌, [], ◌∷◌, some, ◌>>=◌, arith}
use rustmc.Event.{same}
use rustmc.View.{get_max, contains}
use rustmc.SAddr.{align, same_storage_as}
use rustmc.MemAccess.{overlaps}
use rustmc.EventLabel.{WriteKind, ReadKind, thread_start, write, read}
use rustmc.ExecutionGraph.{
  ExecutionGraph, get_event_label, contains_pos, at_loc, or_empty, put_loc, has_event, remove_if,
  add_label_to_graph, stamped, place, change_label, map_at, next_stamp, thread_at,
}
use rustmc.ExecutionGraph.Change.{
  change_role, change_readers, mem_in, access_at, add_init_rf, is_overlapping, init_readers,
}
use rustmc.ExecutionGraph.Coherence.{
  readers_of, track_coherence_at_loc, with_entry, add_store_to_co, add_stores_to_co,
}
use rustmc.ExecutionGraph.Examples.{two, two-IsPlaced, at, label, mem, access, value}
use rustmc.ExecutionGraph.Copy.{
  VectorClock, initializer_label, new_graph, create_hole_label, empty_threads, resize_events,
  note_label, copy_event, copy_events, copy_thread, copy_threads, passes_at, is_malloc,
  is_read_role, is_write_role, point, point_alloc, keep_rfs, add_all, accesses_of, original, relink,
  relink_thread, relink_threads, copy_stores, copy_coherence, copy_readers, copy_init_rfs,
  copy_graph_up_to, get_copy_up_to,
}
use rustmc.ExecutionGraph.Copy.Contents.{get_copy_up_to-contains_pos}

abbrev whole : VectorClock
whole = record {
  max = get_max (record { view = 1 ∷ 1 ∷ [] });
  holds = contains (record { view = 1 ∷ 1 ∷ [] });
}

abbrev fresh_graph : ExecutionGraph
fresh_graph = record {
  events = (record initializer_label { has_stamp = true } ∷ []) ∷ [];
  timestamp = 1;
  coherence = [];
  init_rfs = [];
}

fresh_graph_is_new : new_graph ≡ some fresh_graph
unfolding new_graph add_label_to_graph stamped place next_stamp map_at get_event_label change_label
fresh_graph_is_new = refl

-- The copy has the same labels as the graph, but for the initializer, which is made anew.
abbrev the_copy : ExecutionGraph
the_copy = record two {
  events =
      (record initializer_label { has_stamp = true }
        ∷ label (at 0 1) 3 (write WriteKind.plain mem value 0 (at 1 1 ∷ []))
        ∷ [])
      ∷ (label (at 1 0) 1 (thread_start (at 0 0))
          ∷ label (at 1 1) 5 (read ReadKind.plain mem ((at 0 1, access) ∷ []))
          ∷ [])
      ∷ [];
}

-- A clock without the write, which is a hole of the copy.
abbrev without_write : VectorClock
without_write = record whole { holds = λ e. VectorClock.holds whole e && not (same e (at 0 1)) }

abbrev holed_copy : ExecutionGraph
holed_copy = record the_copy {
  events =
      (record initializer_label { has_stamp = true }
        ∷ record (create_hole_label (at 0 1)) { has_stamp = true; stamp = 6 }
        ∷ [])
      ∷ thread_at the_copy 1
      ∷ [];
  timestamp = 7;
  coherence = (8, []) ∷ [];
}

copy_without_write : copy_graph_up_to two without_write fresh_graph ≡ some holed_copy
unfolding copy_graph_up_to copy_threads resize_events relink_threads copy_coherence copy_init_rfs
    copy_readers copy_stores relink_thread relink original accesses_of add_all keep_rfs point_alloc
    point passes_at is_read_role is_write_role is_malloc copy_thread copy_events copy_event
    note_label empty_threads create_hole_label add_label_to_graph stamped place next_stamp map_at
    get_event_label change_label change_role change_readers mem_in access_at add_init_rf
    is_overlapping init_readers readers_of track_coherence_at_loc with_entry add_store_to_co
    add_stores_to_co align overlaps same_storage_as at_loc or_empty put_loc has_event remove_if
    contains_pos get_max contains
copy_without_write = refl

two_copied_with_hole : get_copy_up_to two without_write ≡ some holed_copy
unfolding get_copy_up_to
two_copied_with_hole =
    ap (λ o. o >>= copy_graph_up_to two without_write) fresh_graph_is_new ∙ copy_without_write

get_copy_up_to-contains_pos_example : contains_pos holed_copy (at 0 1) ≡ true
unfolding get_max contains_pos
get_copy_up_to-contains_pos_example =
    get_copy_up_to-contains_pos two without_write holed_copy (at 0 1)
      (λ e. two-IsPlaced e.thread e.index) two_copied_with_hole refl (omega arith)
