-- ===== src/DepView/Join.antt =====
-- src/DepView.cpp, update: the clock then contains what either contained, and nothing more.
use rustmc.Prelude.{
  ℕ, zero, suc, ◌+◌, ◌≤◌, ◌<◌, ◌≡◌, ◌⊎◌, refl, true, ◌&&◌, ◌||◌, length, max, ltb, leb, ◌==◌,
  if◌then◌else◌, some, arith, ap, Bool-cases, inl, inr,
}
use rustmc.Event.{Event}
use rustmc.VSet.{VSet, lower_bound}
use rustmc.VSet
use rustmc.VSet.Order.{IsSorted, elem}
use rustmc.VSet.Single.{elem-lower_bound}
use rustmc.VSet.Queries.{intersect_with-IsSorted, elem-intersect_with}
use rustmc.VSet.Range.{insert_range-IsSorted, elem-insert_range}
use rustmc.View.{View}
use rustmc.View
use rustmc.View.Laws.{get_max_past}
use rustmc.DepView.{
  DepView, size, get_max, holes_of, holes_at, put_holes, contains, update_at, update_loop, update,
}
use rustmc.DepView.Holes.{
  IsClock, seen, contains-seen, holes_at-holes_of, holes_of-put_holes, get_max-put_holes,
  length-put_holes,
}
use rustmc.DepView.Seen.{view-put_holes, put_holes-Sorted}
use rustmc.DepView.Seen.Update.{unknown_zero, get_max-raised, size-raised, same_holes}

-- The holes of one thread after an update: common ones, and those past the other's greatest index.
joined : VSet → VSet → ℕ → VSet → VSet
joined ours theirs from further =
    VSet.insert_range (VSet.intersect_with ours theirs) (lower_bound further (suc from))

elem-joined :
    (h from : ℕ) (ours theirs further : VSet)
    → IsSorted ours
    → IsSorted theirs
    → IsSorted further
    → elem h (joined ours theirs from further)
      ≡ ((elem h ours && elem h theirs) || (elem h further && leb (suc from) h))
unfolding joined
elem-joined h from ours theirs further f g k = ground (
  arith,
  elem-insert_range h (VSet.intersect_with ours theirs) (lower_bound further (suc from))
      (intersect_with-IsSorted ours theirs),
  elem-intersect_with h ours theirs f g,
  elem-lower_bound h (suc from) further k,
)

joined-IsSorted :
    (from : ℕ) (ours theirs further : VSet) → IsSorted (joined ours theirs from further)
unfolding joined
joined-IsSorted from ours theirs further =
    insert_range-IsSorted (VSet.intersect_with ours theirs) (lower_bound further (suc from))
      (intersect_with-IsSorted ours theirs)

-- The clock has taken in one thread of the other.
abbrev Takes : DepView → DepView → ℕ → DepView → Type 0
Takes d v i d1 = IsClock d1 × ((t x : ℕ) → seen d1 t x ≡ (seen d t x || (t == i && seen v t x)))

size-put_holes : (d : DepView) (t : ℕ) (hs : VSet) → size (put_holes d t hs) ≡ size d
unfolding size
size-put_holes d t hs = ap View.size (view-put_holes d t hs)

module _ (d v : DepView) (i : ℕ) (c : IsClock d) (k : IsClock v) where
  -- The new set of holes over a clock `d0` that differs from `d` in its greatest indices only.
  take_at :
      (d0 : DepView) (from : ℕ) (further : VSet)
      → i < length v.holes
      → ((t : ℕ) → holes_of d0 t ≡ holes_of d t)
      → length d.holes ≤ length d0.holes
      → size d0 ≤ max (size d) (suc i)
      → ((t : ℕ) → get_max d0 t ≡ (if t == i then max (get_max d i) (get_max v i) else get_max d t))
      → ((get_max d i < get_max v i) × (further ≡ holes_of v i) × (from ≡ get_max d i))
        ⊎ ((get_max v i ≤ get_max d i) × (further ≡ holes_of d i) × (from ≡ get_max v i))
      → Takes d v i (put_holes d0 i (joined (holes_of d i) (holes_of v i) from further))
  take_at d0 from further known hs grows small top which =
      let j = joined (holes_of d i) (holes_of v i) from further in
      let d1 = put_holes d0 i j in
      let in_j : (h : ℕ)
          → elem h j ≡ (
              (elem h (holes_of d i) && elem h (holes_of v i))
              || (elem h further && leb (suc from) h)) =
        λ h.
          elem-joined h from (holes_of d i) (holes_of v i) further (c.sorted i) (k.sorted i)
            sorted in
      (
        record {
          sorted =
              put_holes-Sorted d0 i j (λ t. rw (hs t) (c.sorted t))
                (joined-IsSorted from (holes_of d i) (holes_of v i) further);
          below = λ t h m. ground (
            arith,
            holes_of-put_holes d0 i j t,
            hs t,
            top t,
            get_max-put_holes d0 i j t,
            in_j h,
            which,
            c.below t h,
            c.below i h,
            k.below i h,
          );
          known =
              omega (arith, size-put_holes d0 i j, small, length-put_holes d0 i j, grows, c.known);
        },
        λ t x. ground (
          arith,
          holes_of-put_holes d0 i j t,
          hs t,
          top t,
          get_max-put_holes d0 i j t,
          in_j x,
          which,
          c.below t x,
          c.below i x,
          k.below i x,
          length-put_holes d0 i j,
          grows,
          known,
          unknown_zero d t c,
        ),
      )
    where
      sorted : IsSorted further
      sorted = elim which [ inl w ↦ rw (w.1) (k.sorted i) | inr w ↦ rw (w.1) (c.sorted i) ]

  update_at-Takes :
      i < length v.holes → (d1 : DepView) × (update_at d v i ≡ some d1) × Takes d v i d1
  unfolding update_at joined
  update_at-Takes known =
      let e : Event = record { thread = i; index = get_max v i } in
      let d0 : DepView = record d { view = View.set_max d.view e } in
      let ours = holes_of d i in
      let theirs = holes_of v i in
      let at : holes_at v i ≡ some theirs = ground (arith, holes_at-holes_of v i) in
      elim (Bool-cases (ltb (get_max d i) (get_max v i))) [
        | inl up ↦ (
          put_holes d0 i (joined ours theirs (get_max d i) theirs),
          rw (at, up),
          take_at d0 (get_max d i) theirs known (same_holes d (View.set_max d.view e)) (omega arith)
              (omega (arith, size-raised d d0 e refl))
              (λ t. ground (arith, get_max-raised d d0 e refl t)) (inl (ground arith, refl, refl)),
        )
        | inr low ↦ (
          put_holes d i (joined ours theirs (get_max v i) ours),
          rw (at, low),
          take_at d (get_max v i) ours known (λ t. refl) (omega arith) (omega arith)
              (λ t. ground arith) (inr (ground arith, refl, refl)),
        )
      ]

-- The clock has taken in the threads from `i` on, as many as there were rounds.
abbrev TakesAll : DepView → DepView → ℕ → ℕ → DepView → Type 0
TakesAll d v i n d1 =
    IsClock d1
    × ((t x : ℕ) → seen d1 t x ≡ (seen d t x || (leb i t && ltb t (i + n) && seen v t x)))

update_loop-TakesAll :
    (rounds i : ℕ) (d v : DepView)
    → IsClock d
    → IsClock v
    → i + rounds ≤ length v.holes
    → (d1 : DepView) × (update_loop rounds i d v ≡ some d1) × TakesAll d v i rounds d1
unfolding update_loop
update_loop-TakesAll zero i d v c k room = (d, refl, (c, λ t x. ground arith))
update_loop-TakesAll (suc rounds) i d v c k room =
    let (d1, e1, (c1, s1)) = update_at-Takes d v i c k (omega arith) in
    let (d2, e2, (c2, s2)) = update_loop-TakesAll rounds (suc i) d1 v c1 k (omega arith) in
    (d2, rw e1 e2, (c2, λ t x. ground (arith, s1 t x, s2 t x)))

-- The clock contains what either contained.
abbrev pub Joins : DepView → DepView → DepView → Type 0
Joins d v d1 = IsClock d1 × ((e : Event) → contains d1 e ≡ (contains d e || contains v e))

seen_past : (v : DepView) (t x : ℕ) → size v ≤ t → seen v t x ≡ true → x ≡ 0
unfolding size get_max
seen_past v t x h s = ground (arith, get_max_past v.view t h)

-- On well-formed clocks `update` does not abort, keeps the clock well formed, and is the union of the two:
-- it contains what one of them contained.
pub update-Joins :
    (d v : DepView) → IsClock d → IsClock v → (d1 : DepView) × (update d v ≡ some d1) × Joins d v d1
unfolding update
update-Joins d v c k =
    let (d1, e1, (c1, s1)) = update_loop-TakesAll (size v) 0 d v c k (omega (arith, k.known)) in
    elim (Bool-cases (size v == 0)) [
      | inl none_seen ↦ (
        d,
        rw none_seen,
        (
          c,
          λ e.
              ground
                (arith, contains-seen d e c, contains-seen v e k, seen_past v e.thread e.index),
        ),
      )
      | inr some_seen ↦ (
        d1,
        rw some_seen e1,
        (
          c1,
          λ e. ground (
            arith,
            contains-seen d e c,
            contains-seen v e k,
            contains-seen d1 e c1,
            s1 e.thread e.index,
            seen_past v e.thread e.index,
          ),
        ),
      )
    ]
