-- ===== src/VSet.antt =====
-- src/VSet.hpp and src/VSet.tcc: a set kept as a sorted vector without duplicates.
-- The vector is a list. The element type is that of the sets of event indices and of addresses,
-- a number. `std::lower_bound` is its documented meaning, the first element that is not smaller.
pub mod Order
pub mod Single
pub mod Merge
pub mod Queries
pub mod Erase
pub mod Range
mod Runs
use rustmc.Prelude.{
  ℕ, zero, suc, ◌+◌, ◌-◌, Bool, true, false, not, ◌&&◌, ◌||◌, List, [], ◌∷◌, ◌++◌, Option, none,
  some, ltb, leb, ◌==◌, if◌then◌else◌, length, get_or, set, replicate, take,
}

abbrev pub VSet : Type 0
VSet = List ℕ

-- The elements from the lower bound of `el` on, as an iterator sees them.
pub lower_bound : VSet → ℕ → VSet
lower_bound [] el = []
lower_bound (x ∷ xs) el = let rest = lower_bound xs el in if ltb x el then rest else x ∷ xs

-- `it == end() || *it != el` is the answer `none`.
at_bound : VSet → ℕ → Option VSet
at_bound [] el = none
at_bound (x ∷ xs) el = if x == el then some (x ∷ xs) else none

pub find : VSet → ℕ → Option VSet
unfolding at_bound
find s el = at_bound (lower_bound s el) el

pub count : VSet → ℕ → ℕ
count s el = elim (find s el) [ none ↦ 0 | some it ↦ 1 ]

-- The vector with `el` put before its lower bound, unless it is there.
insert_at : VSet → ℕ → VSet
insert_at [] el = el ∷ []
insert_at (x ∷ xs) el =
    let rest = insert_at xs el in
    if ltb x el then x ∷ rest else if x == el then x ∷ xs else el ∷ x ∷ xs

pub insert : VSet → ℕ → VSet × Bool
insert s el = (insert_at s el, elim (find s el) [ none ↦ true | some it ↦ false ])

erase_at : VSet → ℕ → VSet
erase_at [] el = []
erase_at (x ∷ xs) el =
    let rest = erase_at xs el in if ltb x el then x ∷ rest else if x == el then xs else x ∷ xs

pub erase : VSet → ℕ → VSet × ℕ
erase s el = (erase_at s el, count s el)

-- The first loop of the bulk insertion: the elements of the second vector that the first lacks.
pub count_new : VSet → VSet → ℕ
count_new [] bs = length bs
count_new (a ∷ as') [] = 0
count_new (a ∷ as') (b ∷ bs) =
    let skip = count_new as' (b ∷ bs) in
    let both = count_new as' bs in
    let miss = suc (count_new (a ∷ as') bs) in
    if ltb a b then skip else if a == b then both else miss

-- The in-place loop: positions i - 1 down to 0 are filled from the first `na` entries of the vector
-- itself and the first `nb` of `s`. The source keeps the indices na - 1 and nb - 1, where -1 ends.
pub fill : ℕ → List ℕ → VSet → ℕ → ℕ → List ℕ
fill zero vs s na nb = vs
fill (suc i) vs s na nb =
    let a = get_or vs (na - 1) 0 in
    let b = get_or s (nb - 1) 0 in
    let from_s = fill i (set vs i b) s na (nb - 1) in
    let from_both = fill i (set vs i a) s (na - 1) (nb - 1) in
    let from_a = fill i (set vs i a) s (na - 1) nb in
    if na == 0 || (ltb 0 nb && ltb a b)
    then from_s
    else if ltb 0 na && ltb 0 nb && a == b
    then from_both
    else from_a

-- The vector is grown by `n` copies of its first element, then filled.
grow_fill : ℕ → VSet → VSet → VSet × ℕ
grow_fill zero s t = (s, 0)
grow_fill (suc n) s t =
    (fill (length s + suc n) (s ++ replicate (suc n) (get_or s 0 0)) t (length s) (length t), suc n)

-- `insert(const VSet &)`; the count is what it returns.
pub insert_set : VSet → VSet → VSet × ℕ
unfolding grow_fill
insert_set [] t = (t, length t)
insert_set (x ∷ xs) [] = (x ∷ xs, 0)
insert_set (x ∷ xs) (y ∷ []) = let (s, fresh) = insert (x ∷ xs) y in (s, if fresh then 1 else 0)
insert_set (x ∷ xs) (y ∷ z ∷ t) = grow_fill (count_new (x ∷ xs) (y ∷ z ∷ t)) (x ∷ xs) (y ∷ z ∷ t)

-- `insert(begin, end)` and the constructors from a range: an element above the maximum is appended.
last_or : ℕ → VSet → ℕ
last_or d [] = d
last_or d (x ∷ xs) = last_or x xs

insert_max : VSet → ℕ → VSet
unfolding last_or
insert_max s el =
    if not (length s == 0) && ltb (last_or 0 s) el then s ++ el ∷ [] else (insert s el).0

pub insert_range : VSet → List ℕ → VSet
insert_range s [] = s
insert_range s (x ∷ xs) = insert_range (insert_max s x) xs

-- The constructors from a range and from an initializer list.
pub of_range : List ℕ → VSet
unfolding insert_range
of_range xs = insert_range [] xs

subset_loop : VSet → VSet → Bool
subset_loop [] bs = true
subset_loop (a ∷ as') [] = false
subset_loop (a ∷ as') (b ∷ bs) =
    let both = subset_loop as' bs in
    let further = subset_loop (a ∷ as') bs in
    if ltb (length bs) (length as')
    then false
    else if ltb a b
    then false
    else if a == b
    then both
    else further

pub subset_of : VSet → VSet → Bool
subset_of s t = if ltb (length t) (length s) then false else subset_loop s t

pub intersects : VSet → VSet → Bool
intersects [] bs = false
intersects (a ∷ as') [] = false
intersects (a ∷ as') (b ∷ bs) =
    let next_a = intersects as' (b ∷ bs) in
    let next_b = intersects (a ∷ as') bs in
    if a == b then true else if ltb a b then next_a else next_b

intersect_loop : VSet → VSet → VSet → VSet
intersect_loop result [] bs = result
intersect_loop result (a ∷ as') [] = result
intersect_loop result (a ∷ as') (b ∷ bs) =
    let hit = intersect_loop (insert result a).0 as' bs in
    let next_a = intersect_loop result as' (b ∷ bs) in
    let next_b = intersect_loop result (a ∷ as') bs in
    if a == b then hit else if ltb a b then next_a else next_b

pub intersect_with : VSet → VSet → VSet
intersect_with s t = intersect_loop [] s t

-- The state of the bulk deletion's loop: the vector, the two positions, the next place to fill and
-- the count of what was erased.
pub record EraseState : Type 0 where
  pub vs : List ℕ
  pub a : ℕ
  pub b : ℕ
  pub a_mov : ℕ
  pub erased : ℕ

-- One round of the loop over both sets.
sweep_round : VSet → EraseState → EraseState
sweep_round s w =
    if get_or w.vs w.a 0 == get_or s w.b 0
    then record w { a = suc w.a; b = suc w.b; erased = suc w.erased }
    else if ltb (get_or w.vs w.a 0) (get_or s w.b 0)
    then record w {
      vs = if w.a_mov == w.a then w.vs else set w.vs w.a_mov (get_or w.vs w.a 0);
      a = suc w.a;
      a_mov = suc w.a_mov;
    }
    else record w { b = suc w.b }

sweep : ℕ → VSet → EraseState → EraseState
unfolding sweep_round
sweep zero s w = w
sweep (suc fuel) s w =
    let rest = sweep fuel s (sweep_round s w) in
    if ltb w.a (length w.vs) && ltb w.b (length s) then rest else w

-- What is left of the vector moves down to the next place to fill.
move_down : ℕ → List ℕ → ℕ → ℕ → List ℕ
move_down zero vs a a_mov = vs
move_down (suc n) vs a a_mov = move_down n (set vs a_mov (get_or vs a 0)) (suc a) (suc a_mov)

-- The move takes `length vs - a` rounds, after which the vector is cut.
sweep_end : EraseState → VSet × ℕ
unfolding move_down
sweep_end w = (
  if w.a_mov == w.a
      then w.vs
      else take (w.a_mov + (length w.vs - w.a)) (move_down (length w.vs - w.a) w.vs w.a w.a_mov),
  w.erased,
)

-- `erase(const VSet &)`. A round advances one of the positions at least, which bounds the rounds.
pub erase_set : VSet → VSet → VSet × ℕ
unfolding sweep sweep_end
erase_set [] t = ([], 0)
erase_set (x ∷ xs) [] = (x ∷ xs, 0)
erase_set (x ∷ xs) (y ∷ ys) = sweep_end (
    sweep (length (x ∷ xs) + length (y ∷ ys)) (y ∷ ys)
      (record { vs = x ∷ xs; a = 0; b = 0; a_mov = 0; erased = 0 }))
