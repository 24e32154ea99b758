-- ===== src/DepView.antt =====
-- src/DepView.hpp and src/DepView.cpp: a vector clock with holes, the events below a thread's
-- greatest index that have not been seen. `none` is the abort of `BUG()` and `BUG_ON`.
pub mod Holes
pub mod Seen
pub mod Join
pub mod Runs
use rustmc.Prelude.{
  ◌>>=◌, ℕ, zero, suc, ◌+◌, ◌-◌, Bool, true, false, not, ◌&&◌, ◌||◌, List, [], ◌∷◌, ◌++◌, length,
  get_or, get_elem?, set, replicate, ltb, leb, ◌==◌, if◌then◌else◌, Option, none, some,
}
use rustmc.Event.{Event}
use rustmc.VSet.{VSet, lower_bound}
use rustmc.VSet
use rustmc.View.{View}
use rustmc.View

pub record DepView : Type 0 where
  pub view : View
  pub holes : List VSet

pub empty_clock : DepView
empty_clock = record { view = View.empty_view; holes = [] }

pub size : DepView → ℕ
size d = View.size d.view

pub clear : DepView → DepView
clear d = record { view = View.clear d.view; holes = [] }

pub get_max : DepView → ℕ → ℕ
get_max d t = View.get_max d.view t

-- `HoleView::operator[]` on a constant: out of range it aborts.
pub holes_at : DepView → ℕ → Option VSet
holes_at d t = get_elem? d.holes t

-- `HoleView::operator[]` on what may change: the map is grown by empty sets.
unfoldable pub grow : List VSet → ℕ → List VSet
grow hs t = hs ++ replicate (suc t - length hs) []

pub holes_of : DepView → ℕ → VSet
unfolding grow
holes_of d t = get_or (grow d.holes t) t []

pub put_holes : DepView → ℕ → VSet → DepView
unfolding grow
put_holes d t hs = record d { holes = set (grow d.holes t) t hs }

-- The test of a hole's absence that `contains` and `hasHole` share.
pub no_hole : DepView → Event → Bool
no_hole d e = elim (holes_at d e.thread) [ none ↦ false | some hs ↦ VSet.count hs e.index == 0 ]

pub contains : DepView → Event → Bool
unfolding no_hole
contains d e = leb e.index (get_max d e.thread) && (e.index == 0 || no_hole d e)

pub has_hole : DepView → Event → Bool
unfolding no_hole
has_hole d e = no_hole d e

pub add_hole : DepView → Event → Option DepView
add_hole d e =
    if ltb (get_max d e.thread) e.index
    then none
    else some (put_holes d e.thread (VSet.insert (holes_of d e.thread) e.index).0)

-- `addHolesInRange(start, endIdx)`, which runs `endIdx - start.index` rounds.
add_holes : ℕ → DepView → Event → Option DepView
add_holes zero d e = some d
add_holes (suc n) d e = add_hole d e >>= λ d'. add_holes n d' (record e { index = suc e.index })

pub add_holes_in_range : DepView → Event → ℕ → Option DepView
unfolding add_holes
add_holes_in_range d start end_idx = add_holes (end_idx - start.index) d start

pub remove_hole : DepView → Event → DepView
remove_hole d e = put_holes d e.thread (VSet.erase (holes_of d e.thread) e.index).0

pub remove_all_holes : DepView → ℕ → DepView
remove_all_holes d t = put_holes d t []

remove_holes : ℕ → DepView → Event → DepView
remove_holes zero d e = d
remove_holes (suc n) d e = remove_holes n (remove_hole d e) (record e { index = suc e.index })

pub remove_holes_in_range : DepView → Event → ℕ → DepView
unfolding remove_holes
remove_holes_in_range d start end_idx = remove_holes (end_idx - start.index) d start

-- `holes_[thread];` grows the map and changes nothing else.
touch : DepView → ℕ → DepView
touch d t = put_holes d t (holes_of d t)

pub update_idx : DepView → Event → Option DepView
unfolding touch
update_idx d e =
    let old = get_max d e.thread in
    if ltb old e.index
    then add_holes_in_range (touch (record d { view = View.set_max d.view e }) e.thread)
        (record e { index = suc old }) e.index
    else some (remove_hole d e)

pub set_max : DepView → Event → Option DepView
unfolding touch
set_max d e =
    let grown = if leb (View.size d.view) e.thread then touch d e.thread else d in
    let old = get_max grown e.thread in
    let moved = record grown { view = View.set_max grown.view e } in
    if ltb old e.index
    then add_holes_in_range moved (record e { index = suc old }) e.index
    else some (remove_holes_in_range moved e (suc old))

-- One thread of an update: the holes of both clocks, and those that only the further one can see.
update_at : DepView → DepView → ℕ → Option DepView
update_at d v i = holes_at v i >>= λ theirs.
    let ours = holes_of d i in
    let isec = VSet.intersect_with ours theirs in
    if ltb (get_max d i) (get_max v i)
    then some (
        put_holes
          (record d { view = View.set_max d.view (record { thread = i; index = get_max v i }) }) i
          (VSet.insert_range isec (lower_bound theirs (suc (get_max d i)))))
    else some (put_holes d i (VSet.insert_range isec (lower_bound ours (suc (get_max v i)))))

update_loop : ℕ → ℕ → DepView → DepView → Option DepView
unfolding update_at
update_loop zero i d v = some d
update_loop (suc rounds) i d v = update_at d v i >>= λ d'. update_loop rounds (suc i) d' v

pub update : DepView → DepView → Option DepView
unfolding update_loop
update d v = if size v == 0 then some d else update_loop (size v) 0 d v
