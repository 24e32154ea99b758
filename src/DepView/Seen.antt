-- ===== src/DepView/Seen.antt =====
-- src/DepView.hpp and src/DepView.cpp: the loops over a range of holes, updateIdx and setMax.
pub mod Update
pub mod SetMax
use rustmc.Prelude.{
  ◌>>=◌, ℕ, zero, suc, ◌+◌, ◌-◌, ◌≤◌, ◌<◌, ◌≡◌, refl, Bool, true, false, not, ◌&&◌, ◌||◌, List, [],
  ◌∷◌, length, max, ltb, leb, ◌==◌, if◌then◌else◌, Option, none, some, arith, ap, ◌∙◌, Bool-cases,
  inl, inr,
}
use rustmc.Event.{Event}
use rustmc.VSet.{VSet}
use rustmc.VSet
use rustmc.VSet.Order.{From, IsSorted, elem}
use rustmc.VSet.Single.{insert-IsSorted, elem-insert, erase-IsSorted, elem-erase}
use rustmc.View.{View}
use rustmc.View
use rustmc.View.Laws.{get_max-set_max}
use rustmc.DepView.{
  DepView, size, get_max, holes_of, put_holes, add_hole, add_holes, add_holes_in_range, remove_hole,
  remove_holes, remove_holes_in_range, touch, update_idx, set_max,
}
use rustmc.DepView.Holes.{IsClock, seen, holes_of-put_holes, get_max-put_holes, length-put_holes}

abbrev pub Sorted : DepView → Type 0
Sorted d = (t : ℕ) → IsSorted (holes_of d t)

pub put_holes-Sorted :
    (d : DepView) (t : ℕ) (hs : VSet) → Sorted d → IsSorted hs → Sorted (put_holes d t hs)
put_holes-Sorted d t hs f g i = elim (Bool-cases (i == t)) [
  | inl e ↦ rw (holes_of-put_holes d t hs i, e) g
  | inr e ↦ rw (holes_of-put_holes d t hs i, e) (f i)
]

pub view-put_holes : (d : DepView) (t : ℕ) (hs : VSet) → (put_holes d t hs).view ≡ d.view
unfolding put_holes
view-put_holes d t hs = refl

-- The holes of one thread have changed by a range, and nothing else has.
record Fills (d : DepView) (t from to : ℕ) (d' : DepView) : Type 0 where
  same : d'.view ≡ d.view
  sorted : Sorted d'
  holes :
      (i h : ℕ)
      → elem h (holes_of d' i) ≡ (elem h (holes_of d i) || (i == t && (leb from h && ltb h to)))
  grows : length d.holes ≤ length d'.holes

add_hole_lem :
    (d : DepView) (e : Event)
    → e.index ≤ get_max d e.thread
    → add_hole d e ≡ some (put_holes d e.thread (VSet.insert (holes_of d e.thread) e.index).0)
unfolding add_hole
add_hole_lem d e h = ground arith

-- No hole of the range is above the greatest index, so the loop does not abort.
add_holes-Fills :
    (n : ℕ) (d : DepView) (e : Event)
    → Sorted d
    → e.index + n ≤ suc (get_max d e.thread)
    → (d' : DepView) × (add_holes n d e ≡ some d') × Fills d e.thread e.index (e.index + n) d'
unfolding add_holes
add_holes-Fills zero d e f room =
    (d, refl, record { same = refl; sorted = f; holes = λ i h. ground arith; grows = omega arith })
add_holes-Fills (suc n) d e f room =
    let hs : VSet = (VSet.insert (holes_of d e.thread) e.index).0 in
    let d1 : DepView = put_holes d e.thread hs in
    let (d', eq, r) =
      add_holes-Fills n d1 (record e { index = suc e.index })
        (put_holes-Sorted d e.thread hs f
          (insert-IsSorted e.index (holes_of d e.thread) (f e.thread)))
        (omega (arith, get_max-put_holes d e.thread hs e.thread)) in
    (
      d',
      rw (add_hole_lem d e (omega arith)) eq,
      record {
        same = r.same ∙ view-put_holes d e.thread hs;
        sorted = r.sorted;
        holes = λ i h. ground (
          arith,
          r.holes i h,
          holes_of-put_holes d e.thread hs i,
          elem-insert h e.index (holes_of d e.thread) (f e.thread),
          ap (λ (j : ℕ). elem h (holes_of d j)) {x = i} {y = e.thread},
        );
        grows = omega (arith, r.grows, (length-put_holes d e.thread hs).1);
      },
    )

-- The holes of a range of one thread are gone, and nothing else has changed.
record Clears (d : DepView) (t from to : ℕ) (d' : DepView) : Type 0 where
  same : d'.view ≡ d.view
  sorted : Sorted d'
  holes :
      (i h : ℕ)
      → elem h (holes_of d' i) ≡ (elem h (holes_of d i) && not (i == t && (leb from h && ltb h to)))
  grows : length d.holes ≤ length d'.holes

remove_hole-Clears :
    (d : DepView) (e : Event)
    → Sorted d
    → Clears d e.thread e.index (suc e.index) (remove_hole d e)
      × (e.thread < length (remove_hole d e).holes)
unfolding remove_hole
remove_hole-Clears d e f =
    let hs : VSet = (VSet.erase (holes_of d e.thread) e.index).0 in
    (
      record {
        same = view-put_holes d e.thread hs;
        sorted =
            put_holes-Sorted d e.thread hs f
              (erase-IsSorted e.index (holes_of d e.thread) (f e.thread));
        holes = λ i h. ground (
          arith,
          holes_of-put_holes d e.thread hs i,
          elem-erase h e.index (holes_of d e.thread) (f e.thread),
          ap (λ (j : ℕ). elem h (holes_of d j)) {x = i} {y = e.thread},
        );
        grows = (length-put_holes d e.thread hs).1;
      },
      (length-put_holes d e.thread hs).0,
    )

remove_holes-Clears :
    (n : ℕ) (d : DepView) (e : Event)
    → Sorted d
    → Clears d e.thread e.index (e.index + n) (remove_holes n d e)
      × (0 < n → e.thread < length (remove_holes n d e).holes)
unfolding remove_holes
remove_holes-Clears zero d e f = (
  record { same = refl; sorted = f; holes = λ i h. ground arith; grows = omega arith },
  λ p. absurd (omega arith),
)
remove_holes-Clears (suc n) d e f =
    let (c, k) = remove_hole-Clears d e f in
    let (r, q) =
      remove_holes-Clears n (remove_hole d e) (record e { index = suc e.index }) c.sorted in
    (
      record {
        same = r.same ∙ c.same;
        sorted = r.sorted;
        holes = λ i h. ground (arith, r.holes i h, c.holes i h);
        grows = omega (arith, r.grows, c.grows);
      },
      λ p. omega (arith, r.grows, k),
    )
