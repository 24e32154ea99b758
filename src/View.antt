-- ===== src/View.antt =====
-- src/View.hpp and src/View.cpp: a vector clock that holds, for each thread, the greatest index
-- seen. The map from threads is a vector that is grown by zeros, as `llvm::IndexedMap` is.
pub mod Laws
use rustmc.Prelude.{
  ℕ, zero, suc, ◌+◌, ◌-◌, Bool, List, [], ◌∷◌, ◌++◌, length, get_or, set, replicate, ltb, leb, ◌==◌,
  if◌then◌else◌, max,
}
use rustmc.Event.{Event}

pub record View : Type 0 where
  pub view : List ℕ

abbrev pub empty_view : View
empty_view = record { view = [] }

unfoldable pub size : View → ℕ
size v = length v.view

pub empty : View → Bool
unfolding size
empty v = size v == 0

pub clear : View → View
clear v = record v { view = [] }

unfoldable pub get_max : View → ℕ → ℕ
get_max v thread = if ltb thread (length v.view) then get_or v.view thread 0 else 0

-- `IndexedMap::grow(n)` makes `n` an index of the map.
unfoldable pub grow : List ℕ → ℕ → List ℕ
grow xs n = xs ++ replicate (suc n - length xs) 0

unfoldable pub set_max : View → Event → View
unfolding grow
set_max v e =
    let grown = if leb (length v.view) e.thread then grow v.view e.thread else v.view in
    record v { view = set grown e.thread e.index }

unfoldable pub contains : View → Event → Bool
contains v e = leb e.index (get_max v e.thread)

unfoldable pub update_idx : View → Event → View
update_idx v e = if ltb (get_max v e.thread) e.index then set_max v e else v

update_at : View → View → ℕ → View
update_at v w i =
    if ltb (get_max v i) (get_max w i)
    then set_max v (record { thread = i; index = get_max w i })
    else v

-- Threads i, i + 1, …, as many as there are rounds.
update_loop : ℕ → ℕ → View → View → View
unfolding update_at
update_loop zero i v w = v
update_loop (suc rounds) i v w = update_loop rounds (suc i) (update_at v w i) w

pub update : View → View → View
unfolding update_loop
update v w = if empty w then v else update_loop (max (size v) (size w)) 0 v w
