-- ===== src/DepView/Seen/SetMax.antt =====
-- src/DepView.hpp, setMax: the event becomes the greatest of its thread, whether that is more or less.
use rustmc.Prelude.{
  ℕ, suc, ◌-◌, ◌≤◌, ◌<◌, ◌≡◌, refl, not, ◌&&◌, ◌||◌, length, ltb, leb, ◌==◌, if◌then◌else◌, some,
  arith, ap, ◌∙◌, Bool-cases, inl, inr,
}
use rustmc.Event.{Event}
use rustmc.View.{View}
use rustmc.View
use rustmc.DepView.{
  DepView, size, get_max, holes_of, add_holes_in_range, remove_holes, remove_holes_in_range, touch,
  set_max,
}
use rustmc.DepView.Holes.{IsClock, seen, holes_of-put_holes, length-put_holes}
use rustmc.DepView.Seen.{view-put_holes, remove_holes-Clears}
use rustmc.DepView.Seen.Update.{
  unknown_zero, same_max, same_size, same_holes, get_max-raised, size-raised, raise-Sees, IsRaised,
}

-- The clock after `e` was made the greatest of its thread: `e`, and what is not above it.
abbrev pub Cuts : DepView → Event → DepView → Type 0
Cuts d e d' =
    IsClock d'
    × ((t i : ℕ)
        → seen d' t i ≡ (
            (t == e.thread && i == e.index)
            || (seen d t i && (not (t == e.thread) || leb i e.index))))

-- The clock with its thread made known.
record IsGrown (d : DepView) (t : ℕ) (g : DepView) : Type 0 where
  view : g.view ≡ d.view
  holes : (i : ℕ) → holes_of g i ≡ holes_of d i
  known : t < length g.holes
  grows : length d.holes ≤ length g.holes

touch-IsGrown : (d : DepView) (t : ℕ) → IsGrown d t (touch d t)
unfolding touch
touch-IsGrown d t = record {
  view = view-put_holes d t (holes_of d t);
  holes =
      λ i. ground (arith, holes_of-put_holes d t (holes_of d t) i, ap (holes_of d) {x = i} {y = t});
  known = (length-put_holes d t (holes_of d t)).0;
  grows = (length-put_holes d t (holes_of d t)).1;
}

module _ (d g : DepView) (e : Event) (c : IsClock d) (r : IsGrown d e.thread g) where
  grown-IsClock : IsClock g
  grown-IsClock = record {
    sorted = λ t. rw (r.holes t) (c.sorted t);
    below = λ t h m. ground (arith, r.holes t, same_max d g r.view t, c.below t h);
    known = omega (arith, same_size d g r.view, r.grows, c.known);
  }

  seen-grown : (t i : ℕ) → seen g t i ≡ seen d t i
  seen-grown t i = ground (arith, r.holes t, same_max d g r.view t, unknown_zero d t c, r.grows)

  moved : DepView
  moved = record g { view = View.set_max g.view e }

  moved-IsRaised : IsRaised g e moved
  unfolding moved
  moved-IsRaised = record {
    view = refl;
    holes = same_holes g (View.set_max g.view e);
    known = r.known;
    grows = omega arith;
  }

  up-Cuts :
      get_max g e.thread < e.index
      → (d' : DepView) × (add_holes_in_range moved
            (record e { index = suc (get_max g e.thread) })
            e.index
          ≡ some d')
        × Cuts d e d'
  up-Cuts up =
      let (d', eq, (k, s)) = raise-Sees g moved e grown-IsClock moved-IsRaised up in
      (d', eq, (k, λ t i. ground (arith, s t i, seen-grown t i)))

  down-Cuts :
      e.index ≤ get_max g e.thread
      → Cuts d e (remove_holes_in_range moved e (suc (get_max g e.thread)))
  unfolding remove_holes_in_range
  down-Cuts low =
      let n : ℕ = suc (get_max g e.thread) - e.index in
      let m = moved-IsRaised in
      let (f, k) = remove_holes-Clears n moved e (λ t. rw (m.holes t) (grown-IsClock.sorted t)) in
      let top = get_max-raised g (remove_holes n moved e) e (f.same ∙ m.view) in
      (
        record {
          sorted = f.sorted;
          below = λ t h p. ground (arith, f.holes t h, m.holes t, top t, grown-IsClock.below t h);
          known = omega (
            arith,
            size-raised g (remove_holes n moved e) e (f.same ∙ m.view),
            f.grows,
            m.grows,
            k,
            grown-IsClock.known,
          );
        },
        λ t i. ground (
          arith,
          f.holes t i,
          m.holes t,
          top t,
          grown-IsClock.below t i,
          unknown_zero g t grown-IsClock,
          f.grows,
          m.grows,
          r.known,
          k,
          seen-grown t i,
        ),
      )

set_max_grown :
    (d g : DepView) (e : Event)
    → IsClock d
    → IsGrown d e.thread g
    → (if leb (View.size d.view) e.thread then touch d e.thread else d) ≡ g
    → (d' : DepView) × (set_max d e ≡ some d') × Cuts d e d'
unfolding set_max moved
set_max_grown d g e c r eq = elim (Bool-cases (ltb (get_max g e.thread) e.index)) [
  | inl up ↦ let (d', done, s) = up-Cuts d g e c r (ground arith) in (d', rw (eq, up) done, s)
  | inr low ↦ (
    remove_holes_in_range (record g { view = View.set_max g.view e }) e (suc (get_max g e.thread)),
    rw (eq, low),
    down-Cuts d g e c r (ground arith),
  )
]

-- On a well-formed clock `setMax` does not abort, keeps the clock well formed, and leaves in the thread of its
-- event that event and what was seen up to it; other threads stay as they were.
pub set_max-Cuts :
    (d : DepView) (e : Event) → IsClock d → (d' : DepView) × (set_max d e ≡ some d') × Cuts d e d'
unfolding size
set_max-Cuts d e c = elim (Bool-cases (leb (View.size d.view) e.thread)) [
  | inl new ↦ set_max_grown d (touch d e.thread) e c (touch-IsGrown d e.thread) (rw new)
  | inr old ↦
      set_max_grown d d e c
        (record {
          view = refl;
          holes = λ i. refl;
          known = ground (arith, c.known);
          grows = omega arith;
        })
        (rw old)
]
