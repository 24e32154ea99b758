-- ===== src/ExecutionGraph/Copy/Contents.antt =====
-- src/ExecutionGraph.cpp: the labels of the copy that `getCopyUpTo` makes of a graph.
use mathlib.Core.Logic.{◌≢◌}
use mathlib.Core.Option.{none-ne-some, some-injective}
use rustmc.Prelude.{
  ℕ, zero, suc, ◌≤◌, ◌<◌, ◌≡◌, refl, sym, ap, subst, ◌∙◌, Bool, true, false, ◌&&◌, ltb, List, [],
  ◌∷◌, Option, none, some, arith, get_elem?, get_or, length,
}
use rustmc.Event.{Event, init}
use rustmc.EventLabel.{EventLabel, Role, OtherKind, other}
use rustmc.ExecutionGraph.{
  ExecutionGraph, get_event_label, contains_pos, add_label_to_graph, stamped, place, next_stamp,
  map_at, change_label, get_num_threads,
}
use rustmc.ExecutionGraph.Positions.{map_option}
use rustmc.ExecutionGraph.Readers.{role_of, role_at, reads_from}
use rustmc.ExecutionGraph.Validate.{IsPlaced}
use rustmc.ExecutionGraph.Addition.{bind-gives}
use rustmc.ExecutionGraph.Copy.{
  VectorClock, initializer_label, new_graph, empty_threads, resize_events, get_copy_up_to,
}
use rustmc.ExecutionGraph.Copy.Origin.{bare}
use rustmc.ExecutionGraph.Copy.Coverage.{IsThere, copy_threads-IsThere}
use rustmc.ExecutionGraph.Copy.Links.{copy_graph_up_to-Relinked}

-- What stands at a position of the copy of a graph: the initializer, a hole where the clock does not hold
-- the position, or the label of the graph but for its pointers, which as a read reads from the stores that
-- it reads from in the graph and that have a position in the copy.
pub data IsCopyOf (g : ExecutionGraph) (v : VectorClock) (k : ExecutionGraph) (p : Event)
    : Type 0 where
  initializer : p ≡ init → role_at k p ≡ some Role.init → IsCopyOf g v k p
  hole : v.holds p ≡ false → role_at k p ≡ some (other OtherKind.empty) → IsCopyOf g v k p
  label :
      map_option bare (role_at k p) ≡ map_option bare (role_at g p)
      → ((w : Event)
          → reads_from (role_at k p) w ≡ (reads_from (role_at g p) w && contains_pos k w))
      → IsCopyOf g v k p

-- The roles that have no pointers.
has_no_pointers : Role → Bool
has_no_pointers Role.init = true
has_no_pointers (other k) = true
has_no_pointers role = false

new_graph-events :
    (o : ExecutionGraph)
    → new_graph ≡ some o
    → o.events ≡ (record initializer_label { has_stamp = true } ∷ []) ∷ []
unfolding new_graph add_label_to_graph stamped place next_stamp map_at get_event_label change_label
new_graph-events o is = ap ExecutionGraph.events (sym (some-injective _ _ is))

get_elem?-in :
    (thr : List EventLabel) (i : ℕ) → role_of (get_elem? thr i) ≢ none → ltb i (length thr) ≡ true
get_elem?-in [] i there = absurd (there refl)
get_elem?-in (l ∷ thr) zero there = ground arith
get_elem?-in (l ∷ thr) (suc i) there = ground (arith, get_elem?-in thr i there)

get_or-in :
    (thrs : List (List EventLabel)) (t i : ℕ)
    → ltb i (length (get_or thrs t [])) ≡ true
    → ltb t (length thrs) ≡ true
get_or-in [] t i h = ground (arith, h)
get_or-in (thr ∷ thrs) zero i h = ground arith
get_or-in (thr ∷ thrs) (suc t) i h = ground (arith, get_or-in thrs t i h)

IsThere-contains_pos : (k : ExecutionGraph) (p : Event) → IsThere k p → contains_pos k p ≡ true
unfolding contains_pos role_at get_event_label
IsThere-contains_pos k p there =
    let short = get_elem?-in (get_or k.events p.thread []) p.index there in
    ground (arith, short, get_or-in k.events p.thread p.index short)

new_graph-IsThere :
    (o : ExecutionGraph) (n x : ℕ)
    → new_graph ≡ some o
    → 0 < n
    → IsThere (record o { timestamp = x; events = resize_events n o.events }) init
unfolding role_at get_event_label resize_events empty_threads
new_graph-IsThere o zero x is some_threads = absurd (omega (arith, some_threads))
new_graph-IsThere o (suc n) x is some_threads =
    subst (λ u. role_of (get_elem? (get_or (resize_events (suc n) u) 0 []) 0) ≢ none)
      (sym (new_graph-events o is)) (λ m. none-ne-some _ (sym m))

-- When `getCopyUpTo` returns the copy of a graph whose labels know their positions, the copy has each position of
-- the graph whose index is not above the clock's greatest index of the thread.
pub get_copy_up_to-contains_pos :
    (g : ExecutionGraph) (v : VectorClock) (k : ExecutionGraph) (p : Event)
    → IsPlaced g
    → get_copy_up_to g v ≡ some k
    → contains_pos g p ≡ true
    → p.index ≤ v.max p.thread
    → contains_pos k p ≡ true
unfolding get_copy_up_to contains_pos
get_copy_up_to-contains_pos g v k p placed is inside top =
    let (o, begun, made) = bind-gives new_graph _ k is in
    let (h, copied, same_places, linked) = copy_graph_up_to-Relinked g v o k made in
    let n = get_num_threads g in
    let within : p.thread < n = ground (arith, inside) in
    let there =
      copy_threads-IsThere g v n 0 p.thread p.index _ h placed
        (new_graph-IsThere o n g.timestamp begun (omega (arith, within))) inside top (omega arith)
        (omega (arith, within)) copied in
    same_places p ∙ IsThere-contains_pos h p there
