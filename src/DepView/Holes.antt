-- ===== src/DepView/Holes.antt =====
-- src/DepView.hpp: the map of holes, which grows as it is written, and when a clock is well formed.
use rustmc.Prelude.{
  ℕ, zero, suc, ◌-◌, ◌≤◌, ◌<◌, ◌≡◌, refl, Bool, true, not, ◌&&◌, ◌||◌, List, [], ◌∷◌, ◌++◌, length,
  get_or, get_elem?, set, replicate, ltb, leb, ◌==◌, if◌then◌else◌, none, some, arith,
  length-append, length-replicate, length-set,
}
use rustmc.Event.{Event}
use rustmc.VSet.{VSet}
use rustmc.VSet.Order.{IsSorted, elem}
use rustmc.VSet.Single.{count-elem}
use rustmc.DepView.{DepView, size, get_max, holes_at, grow, holes_of, put_holes, no_hole, contains}

get_or-replicate : (n i : ℕ) → get_or {A = VSet} (replicate n []) i [] ≡ []
get_or-replicate zero i = refl
get_or-replicate (suc n) zero = refl
get_or-replicate (suc n) (suc i) = get_or-replicate n i

get_or-pad : (hs : List VSet) (n i : ℕ) → get_or (hs ++ replicate n []) i [] ≡ get_or hs i []
get_or-pad [] n i = get_or-replicate n i
get_or-pad (h ∷ hs) n zero = refl
get_or-pad (h ∷ hs) n (suc i) = get_or-pad hs n i

get_or-set :
    (hs : List VSet) (i j : ℕ) (v : VSet)
    → i < length hs
    → get_or (set hs i v) j [] ≡ (if j == i then v else get_or hs j [])
get_or-set [] i j v h = absurd (omega arith)
get_or-set (x ∷ xs) zero zero v h = refl
get_or-set (x ∷ xs) zero (suc j) v h = ground arith
get_or-set (x ∷ xs) (suc i) zero v h = ground arith
get_or-set (x ∷ xs) (suc i) (suc j) v h = ground (arith, get_or-set xs i j v)

length-grow : (hs : List VSet) (t : ℕ) → t < length (grow hs t)
unfolding grow
length-grow hs t = omega (
  arith,
  length-append hs (replicate (suc t - length hs) []),
  length-replicate {A = VSet} (suc t - length hs) [],
)

pub holes_of-get_or : (d : DepView) (t : ℕ) → holes_of d t ≡ get_or d.holes t []
unfolding holes_of grow
holes_of-get_or d t = get_or-pad d.holes (suc t - length d.holes) t

pub holes_of-put_holes :
    (d : DepView) (t : ℕ) (hs : VSet) (i : ℕ)
    → holes_of (put_holes d t hs) i ≡ (if i == t then hs else holes_of d i)
unfolding put_holes grow
holes_of-put_holes d t hs i = ground (
  arith,
  holes_of-get_or (put_holes d t hs) i,
  holes_of-get_or d i,
  get_or-set (grow d.holes t) t i hs (length-grow d.holes t),
  get_or-pad d.holes (suc t - length d.holes) i,
)

pub get_max-put_holes :
    (d : DepView) (t : ℕ) (hs : VSet) (i : ℕ) → get_max (put_holes d t hs) i ≡ get_max d i
unfolding put_holes get_max
get_max-put_holes d t hs i = refl

-- Writing makes the thread known, and keeps what was known.
pub length-put_holes :
    (d : DepView) (t : ℕ) (hs : VSet)
    → (t < length (put_holes d t hs).holes) × (length d.holes ≤ length (put_holes d t hs).holes)
unfolding put_holes grow
length-put_holes d t hs = ground (
  arith,
  length-set (d.holes ++ replicate (suc t - length d.holes) []) t hs,
  length-append d.holes (replicate (suc t - length d.holes) []),
  length-replicate {A = VSet} (suc t - length d.holes) [],
)

get_elem?-get_or :
    (hs : List VSet) (t : ℕ)
    → get_elem? hs t ≡ (if ltb t (length hs) then some (get_or hs t []) else none)
get_elem?-get_or [] t = ground arith
get_elem?-get_or (h ∷ hs) zero = ground arith
get_elem?-get_or (h ∷ hs) (suc t) = ground (arith, get_elem?-get_or hs t)

pub holes_at-holes_of :
    (d : DepView) (t : ℕ)
    → holes_at d t ≡ (if ltb t (length d.holes) then some (holes_of d t) else none)
unfolding holes_at
holes_at-holes_of d t = ground (arith, get_elem?-get_or d.holes t, holes_of-get_or d t)

-- Every set of holes is sorted and lies below the thread's greatest index, and each thread of
-- which something was seen has a set.
pub record IsClock (d : DepView) : Type 0 where
  pub sorted : (t : ℕ) → IsSorted (holes_of d t)
  pub below : (t h : ℕ) → elem h (holes_of d t) ≡ true → h < get_max d t
  pub known : size d ≤ length d.holes

-- The events that a clock contains, by membership in the sets of holes.
abbrev pub seen : DepView → ℕ → ℕ → Bool
seen d t i =
    leb i (get_max d t) && (i == 0 || (ltb t (length d.holes) && not (elem i (holes_of d t))))

pub contains-seen : (d : DepView) (e : Event) → IsClock d → contains d e ≡ seen d e.thread e.index
unfolding contains no_hole
contains-seen d e c = ground (
  arith,
  holes_at-holes_of d e.thread,
  count-elem e.index (holes_of d e.thread) (c.sorted e.thread),
)
