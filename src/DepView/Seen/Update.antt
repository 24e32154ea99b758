-- ===== src/DepView/Seen/Update.antt =====
-- src/DepView.hpp, updateIdx and setMax: neither aborts, and what each makes the clock contain.
use rustmc.Prelude.{
  ℕ, suc, ◌-◌, ◌≤◌, ◌<◌, ◌≡◌, refl, ◌&&◌, ◌||◌, length, max, ltb, ◌==◌, if◌then◌else◌, some, arith,
  ap, ◌∙◌, Bool-cases, inl, inr,
}
use rustmc.Event.{Event}
use rustmc.View.{View}
use rustmc.View
use rustmc.View.Laws.{get_max-set_max, size-set_max, get_max_past}
use rustmc.DepView.{
  DepView, size, get_max, holes_of, add_holes_in_range, remove_hole, touch, update_idx,
}
use rustmc.DepView.Holes.{IsClock, seen, holes_of-put_holes, length-put_holes}
use rustmc.DepView.Seen.{view-put_holes, add_holes-Fills, remove_hole-Clears}

pub unknown_zero : (d : DepView) (t : ℕ) → IsClock d → length d.holes ≤ t → get_max d t ≡ 0
unfolding get_max size
unknown_zero d t c h = get_max_past d.view t (omega (arith, c.known))

-- The clock after `e` was seen: as before, and `e`.
abbrev pub Sees : DepView → Event → DepView → Type 0
Sees d e d' =
    IsClock d' × ((t i : ℕ) → seen d' t i ≡ (seen d t i || (t == e.thread && i == e.index)))

-- A clock whose thread is known and whose holes are as they were, at a greater index.
pub record IsRaised (d : DepView) (e : Event) (d1 : DepView) : Type 0 where
  pub view : d1.view ≡ View.set_max d.view e
  pub holes : (i : ℕ) → holes_of d1 i ≡ holes_of d i
  pub known : e.thread < length d1.holes
  pub grows : length d.holes ≤ length d1.holes

pub get_max-raised :
    (d d1 : DepView) (e : Event)
    → d1.view ≡ View.set_max d.view e
    → (i : ℕ) → get_max d1 i ≡ (if i == e.thread then e.index else get_max d i)
unfolding get_max
get_max-raised d d1 e v i = ap (λ (w : View). View.get_max w i) v ∙ get_max-set_max d.view e i

pub size-raised :
    (d d1 : DepView) (e : Event)
    → d1.view ≡ View.set_max d.view e
    → size d1 ≡ max (size d) (suc e.thread)
unfolding size
size-raised d d1 e v = ap View.size v ∙ size-set_max d.view e

-- Above the old greatest index: every index between is a hole.
pub raise-Sees :
    (d d1 : DepView) (e : Event)
    → IsClock d
    → IsRaised d e d1
    → get_max d e.thread < e.index
    → (d' : DepView) × (add_holes_in_range d1
          (record e { index = suc (get_max d e.thread) })
          e.index
        ≡ some d')
      × Sees d e d'
unfolding add_holes_in_range
raise-Sees d d1 e c r up =
    let from : Event = record e { index = suc (get_max d e.thread) } in
    let (d', eq, f) =
      add_holes-Fills (e.index - suc (get_max d e.thread)) d1 from
        (λ t. rw (r.holes t) (c.sorted t))
        (ground (arith, get_max-raised d d1 e r.view e.thread)) in
    let top = get_max-raised d d' e (f.same ∙ r.view) in
    (
      d',
      eq,
      (
        record {
          sorted = f.sorted;
          below = λ t h m. ground (arith, f.holes t h, r.holes t, top t, c.below t h);
          known =
              omega
                (arith, size-raised d d' e (f.same ∙ r.view), f.grows, r.known, r.grows, c.known);
        },
        λ t i. ground (
          arith,
          f.holes t i,
          r.holes t,
          top t,
          c.below t i,
          unknown_zero d t c,
          f.grows,
          r.grows,
          r.known,
        ),
      ),
    )

pub same_max : (d d1 : DepView) → d1.view ≡ d.view → (i : ℕ) → get_max d1 i ≡ get_max d i
unfolding get_max
same_max d d1 e i = ap (λ (w : View). View.get_max w i) e

pub same_size : (d d1 : DepView) → d1.view ≡ d.view → size d1 ≡ size d
unfolding size
same_size d d1 e = ap View.size e

pub same_holes :
    (d : DepView) (v : View) (i : ℕ) → holes_of (record d { view = v }) i ≡ holes_of d i
unfolding holes_of
same_holes d v i = refl

lower-Sees :
    (d : DepView) (e : Event)
    → IsClock d
    → e.index ≤ get_max d e.thread
    → Sees d e (remove_hole d e)
lower-Sees d e c low =
    let (f, k) = remove_hole-Clears d e c.sorted in
    let top : (i : ℕ) → get_max (remove_hole d e) i ≡ get_max d i =
      λ i. same_max d (remove_hole d e) f.same i in
    (
      record {
        sorted = f.sorted;
        below = λ t h m. ground (arith, f.holes t h, top t, c.below t h);
        known = omega (arith, same_size d (remove_hole d e) f.same, f.grows, c.known);
      },
      λ t i. ground (arith, f.holes t i, top t, unknown_zero d t c, f.grows, k),
    )

touched-IsRaised :
    (d : DepView) (e : Event)
    → IsRaised d e (touch (record d { view = View.set_max d.view e }) e.thread)
unfolding touch
touched-IsRaised d e =
    let d0 : DepView = record d { view = View.set_max d.view e } in
    record {
      view = view-put_holes d0 e.thread (holes_of d0 e.thread);
      holes = λ i. ground (
        arith,
        holes_of-put_holes d0 e.thread (holes_of d0 e.thread) i,
        ap (holes_of d0) {x = i} {y = e.thread},
        same_holes d (View.set_max d.view e) i,
      );
      known = (length-put_holes d0 e.thread (holes_of d0 e.thread)).0;
      grows = (length-put_holes d0 e.thread (holes_of d0 e.thread)).1;
    }

-- On a well-formed clock `updateIdx` does not abort, keeps the clock well formed, and adds exactly its event.
pub update_idx-Sees :
    (d : DepView) (e : Event)
    → IsClock d
    → (d' : DepView) × (update_idx d e ≡ some d') × Sees d e d'
unfolding update_idx
update_idx-Sees d e c = elim (Bool-cases (ltb (get_max d e.thread) e.index)) [
  | inl up ↦
      let (d', eq, s) = raise-Sees d _ e c (touched-IsRaised d e) (ground arith) in
      (d', rw up eq, s)
  | inr low ↦ (remove_hole d e, rw low, lower-Sees d e c (ground arith))
]
