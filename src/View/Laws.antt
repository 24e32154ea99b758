-- ===== src/View/Laws.antt =====
-- src/View.hpp and src/View.cpp: what each operation does to the greatest index of every thread.
use rustmc.Prelude.{
  ℕ, zero, suc, ◌+◌, ◌-◌, ◌≤◌, ◌<◌, ◌≡◌, refl, ◌&&◌, ◌||◌, List, [], ◌∷◌, ◌++◌, length, get_or, set,
  replicate, ltb, leb, ◌==◌, if◌then◌else◌, max, arith, length-append, length-replicate, length-set,
}
use rustmc.Event.{Event}
use rustmc.View.{
  View, size, empty, get_max, grow, set_max, contains, update_idx, update_at, update_loop, update,
}

get_or_past : (xs : List ℕ) (i : ℕ) → length xs ≤ i → get_or xs i 0 ≡ 0
get_or_past [] i h = refl
get_or_past (x ∷ xs) zero h = absurd (omega arith)
get_or_past (x ∷ xs) (suc i) h = get_or_past xs i (omega arith)

pub get_max-get_or : (v : View) (t : ℕ) → get_max v t ≡ get_or v.view t 0
unfolding get_max
get_max-get_or v t = ground (arith, get_or_past v.view t)

get_or-replicate : (n i : ℕ) → get_or {A = ℕ} (replicate n 0) i 0 ≡ 0
get_or-replicate zero i = refl
get_or-replicate (suc n) zero = refl
get_or-replicate (suc n) (suc i) = get_or-replicate n i

get_or-pad : (xs : List ℕ) (n i : ℕ) → get_or (xs ++ replicate n 0) i 0 ≡ get_or xs i 0
get_or-pad [] n i = get_or-replicate n i
get_or-pad (x ∷ xs) n zero = refl
get_or-pad (x ∷ xs) n (suc i) = get_or-pad xs n i

get_or-set :
    (xs : List ℕ) (i j v : ℕ)
    → i < length xs
    → get_or (set xs i v) j 0 ≡ (if j == i then v else get_or xs j 0)
get_or-set [] i j v h = absurd (omega arith)
get_or-set (x ∷ xs) zero zero v h = refl
get_or-set (x ∷ xs) zero (suc j) v h = ground arith
get_or-set (x ∷ xs) (suc i) zero v h = ground arith
get_or-set (x ∷ xs) (suc i) (suc j) v h = ground (arith, get_or-set xs i j v)

-- `setMax` gives a thread the index of its event, and changes that of no other thread.
pub get_max-set_max :
    (v : View) (e : Event) (t : ℕ)
    → get_max (set_max v e) t ≡ (if t == e.thread then e.index else get_max v t)
unfolding set_max grow
get_max-set_max v e t = ground (
  arith,
  get_max-get_or (set_max v e) t,
  get_max-get_or v t,
  get_or-set v.view e.thread t e.index,
  get_or-set (v.view ++ replicate (suc e.thread - length v.view) 0) e.thread t e.index,
  get_or-pad v.view (suc e.thread - length v.view) t,
  length-append v.view (replicate (suc e.thread - length v.view) 0),
  length-replicate {A = ℕ} (suc e.thread - length v.view) 0,
)

pub get_max-update_idx :
    (v : View) (e : Event) (t : ℕ)
    → get_max (update_idx v e) t
      ≡ (if t == e.thread then max e.index (get_max v t) else get_max v t)
unfolding update_idx
get_max-update_idx v e t = ground (arith, get_max-set_max v e t)

get_max-update_at :
    (v w : View) (i t : ℕ)
    → get_max (update_at v w i) t
      ≡ (if t == i then max (get_max v t) (get_max w t) else get_max v t)
unfolding update_at
get_max-update_at v w i t =
    ground (arith, get_max-set_max v (record { thread = i; index = get_max w i }) t)

get_max-update_loop :
    (rounds i : ℕ) (v w : View) (t : ℕ)
    → get_max (update_loop rounds i v w) t
      ≡ (if leb i t && ltb t (i + rounds) then max (get_max v t) (get_max w t) else get_max v t)
unfolding update_loop
get_max-update_loop zero i v w t = ground arith
get_max-update_loop (suc rounds) i v w t =
    ground
      (arith, get_max-update_loop rounds (suc i) (update_at v w i) w t, get_max-update_at v w i t)

pub get_max_past : (v : View) (t : ℕ) → size v ≤ t → get_max v t ≡ 0
unfolding get_max size
get_max_past v t h = ground arith

-- After an update the greatest index of each thread is the maximum of the two.
pub get_max-update : (v w : View) (t : ℕ) → get_max (update v w) t ≡ max (get_max v t) (get_max w t)
unfolding update empty
get_max-update v w t =
    ground (
      arith,
      get_max-update_loop (max (size v) (size w)) 0 v w t,
      get_max_past v t,
      get_max_past w t,
    )

-- After an update the clock contains what one of the two contained.
pub contains-update :
    (v w : View) (e : Event) → contains (update v w) e ≡ (contains v e || contains w e)
unfolding contains
contains-update v w e = ground (arith, get_max-update v w e.thread)

-- `updateIdx` adds to the clock its event and what precedes it in its thread, and nothing else.
pub contains-update_idx :
    (v : View) (e d : Event)
    → contains (update_idx v e) d ≡ (contains v d || (d.thread == e.thread && leb d.index e.index))
unfolding contains
contains-update_idx v e d = ground (arith, get_max-update_idx v e d.thread)

pub size-set_max : (v : View) (e : Event) → size (set_max v e) ≡ max (size v) (suc e.thread)
unfolding size set_max grow
size-set_max v e = ground (
  arith,
  length-set v.view e.thread e.index,
  length-set (v.view ++ replicate (suc e.thread - length v.view) 0) e.thread e.index,
  length-append v.view (replicate (suc e.thread - length v.view) 0),
  length-replicate {A = ℕ} (suc e.thread - length v.view) 0,
)
