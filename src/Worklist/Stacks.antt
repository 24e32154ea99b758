-- ===== src/Worklist/Stacks.antt =====
-- src/GenMCDriver.cpp: the work list as a stack of items for each stamp.
use rustmc.Prelude.{
  leb, ℕ, suc, ◌+◌, ◌≤◌, ◌<◌, ◌≡◌, refl, ◌&&◌, List, [], ◌∷◌, Option, none, some, ltb, ◌==◌,
  if◌then◌else◌, arith, ap, inl, inr, Bool-cases,
}
use rustmc.Worklist.{
  WorkSet, Worklist, Next, is_empty, add_to_worklist, behind, pop, get_next_item, restrict_worklist,
  restrict_choices,
}

module _ {A : Type 0} where
  -- The stamps of the entries go down.
  abbrev pub Under : ℕ → Worklist A → Type 0
  Under top [] = Unit {0}
  Under top (e ∷ es) = (e.stamp < top) × Under e.stamp es

  abbrev pub IsOrdered : Worklist A → Type 0
  IsOrdered [] = Unit {0}
  IsOrdered (e ∷ es) = Under e.stamp es

  -- The items that wait at a stamp, the next one first.
  unfoldable pub waiting : ℕ → Worklist A → List A
  waiting s [] = []
  waiting s (e ∷ es) = if e.stamp == s then e.wset else waiting s es

  waiting-Under : (s top : ℕ) (q : Worklist A) → Under top q → top ≤ s → waiting s q ≡ []
  unfolding waiting
  waiting-Under s top [] u h = refl
  waiting-Under s top (e ∷ es) u h = ground (arith, waiting-Under s e.stamp es u.1)

  add-Under :
      (top stamp : ℕ) (item : A) (q : Worklist A)
      → stamp < top
      → Under top q
      → Under top (add_to_worklist stamp item q)
  unfolding add_to_worklist
  add-Under top stamp item [] h u = (h, tt)
  add-Under top stamp item (e ∷ es) h u = elim (Bool-cases (ltb e.stamp stamp)) [
    | inl b ↦ rw b (h, (ground arith, u.1))
    | inr b ↦ elim (Bool-cases (e.stamp == stamp)) [
      | inl c ↦ rw (b, c) (u.0, u.1)
      | inr c ↦ rw (b, c) (u.0, add-Under e.stamp stamp item es (ground arith) u.1)
    ]
  ]

  waiting-add-Under :
      (s top stamp : ℕ) (item : A) (q : Worklist A)
      → Under top q
      → waiting s (add_to_worklist stamp item q)
        ≡ (if s == stamp then item ∷ waiting stamp q else waiting s q)
  unfolding add_to_worklist waiting
  waiting-add-Under s top stamp item [] u = ground arith
  waiting-add-Under s top stamp item (e ∷ es) u = ground (
    arith,
    waiting-add-Under s e.stamp stamp item es u.1,
    waiting-Under stamp e.stamp es u.1,
    waiting-Under s e.stamp es u.1,
    ap (λ (x : ℕ). waiting x es) {x = s} {y = stamp},
  )

  ordered_Under : (q : Worklist A) → IsOrdered q → (top : ℕ) × Under top q
  ordered_Under [] o = (0, tt)
  ordered_Under (e ∷ es) o = (suc e.stamp, (omega arith, o))

  Under-IsOrdered : (top : ℕ) (q : Worklist A) → Under top q → IsOrdered q
  Under-IsOrdered top [] u = tt
  Under-IsOrdered top (e ∷ es) u = u.1

  -- In an ordered work list, after an item is added it is the next at its stamp, in front of those that
  -- wait there; the other stamps are as they were, and the work list is ordered.
  pub waiting-add_to_worklist :
      (s stamp : ℕ) (item : A) (q : Worklist A)
      → IsOrdered q
      → (waiting s (add_to_worklist stamp item q)
          ≡ (if s == stamp then item ∷ waiting stamp q else waiting s q))
        × IsOrdered (add_to_worklist stamp item q)
  waiting-add_to_worklist s stamp item q o =
      let (top, u) = ordered_Under q o in
      (
        waiting-add-Under s top stamp item q u,
        Under-IsOrdered (suc (stamp + top)) (add_to_worklist stamp item q)
            (add-Under (suc (stamp + top)) stamp item q (omega arith) (raise top q u)),
      )
    where
      raise : (top : ℕ) (q : Worklist A) → Under top q → Under (suc (stamp + top)) q
      raise top [] u = tt
      raise top (e ∷ es) u = (omega (arith, u.0), u.1)

  -- The next item: it waits first at the greatest stamp at which any waits, and only it is taken.
  pub record IsNext (q : Worklist A) (n : Next A) : Type 0 where
    pub taken :
        (s : ℕ)
        → waiting s q ≡ (if s == n.stamp then n.item ∷ waiting s n.rest else waiting s n.rest)
    pub greatest : (s : ℕ) → (if ltb n.stamp s then waiting s q else []) ≡ []
    pub under : (top : ℕ) → Under top q → Under top n.rest

  abbrev pub IsAnswer : Worklist A → Option (Next A) → Type 0
  IsAnswer q none = (s : ℕ) → waiting s q ≡ []
  IsAnswer q (some n) = IsNext q n

  pop-IsAnswer :
      (stamp : ℕ) (w : WorkSet A) (es : Worklist A) (further : Option (Next A))
      → Under stamp es
      → IsAnswer es further
      → IsAnswer (record { stamp = stamp; wset = w } ∷ es) (pop stamp w es further)
  unfolding pop behind waiting
  pop-IsAnswer stamp [] es none u a = λ s. ground (arith, a s)
  pop-IsAnswer stamp [] es (some n) u a = record {
    taken = λ s. ground (
      arith,
      a.taken s,
      waiting-Under s stamp es u,
      ap (λ (x : ℕ). waiting x es) {x = s} {y = stamp},
    );
    greatest = λ s. ground (arith, a.greatest s);
    under = λ top v. (v.0, a.under stamp v.1);
  }
  pop-IsAnswer stamp (x ∷ xs) es further u a = record {
    taken = λ s. ground arith;
    greatest = λ s. ground (arith, waiting-Under s stamp es u);
    under = λ top v. v;
  }

  get_next-Under : (top : ℕ) (q : Worklist A) → Under top q → IsAnswer q (get_next_item q)
  unfolding get_next_item waiting
  get_next-Under top [] u = λ s. refl
  get_next-Under top (e ∷ es) u =
      pop-IsAnswer e.stamp e.wset es (get_next_item es) u.1 (get_next-Under e.stamp es u.1)

  -- In an ordered work list `getNextItem` has no item only if none waits at any stamp; else it takes the
  -- first that waits at the greatest stamp where one does, leaves all others, and keeps the order.
  pub get_next_item-IsAnswer : (q : Worklist A) → IsOrdered q → IsAnswer q (get_next_item q)
  get_next_item-IsAnswer q o = let (top, u) = ordered_Under q o in get_next-Under top q u

  restrict-Under :
      (top stamp : ℕ) (q : Worklist A) → Under top q → Under top (restrict_worklist stamp q)
  unfolding restrict_worklist
  restrict-Under top stamp [] u = tt
  restrict-Under top stamp (e ∷ es) u = elim (Bool-cases (ltb stamp e.stamp && is_empty e.wset)) [
    | inl b ↦ rw b (raise_top (restrict_worklist stamp es) (restrict-Under e.stamp stamp es u.1))
    | inr b ↦ rw b (u.0, restrict-Under e.stamp stamp es u.1)
  ]
    where
      raise_top : (q : Worklist A) → Under e.stamp q → Under top q
      raise_top [] v = tt
      raise_top (d ∷ ds) v = (omega (arith, v.0, u.0), v.1)

  waiting-restrict-Under :
      (s top stamp : ℕ) (q : Worklist A)
      → Under top q
      → waiting s (restrict_worklist stamp q) ≡ waiting s q
  unfolding restrict_worklist waiting is_empty
  waiting-restrict-Under s top stamp [] u = refl
  waiting-restrict-Under s top stamp (e ∷ es) u =
      ground (arith, waiting-restrict-Under s e.stamp stamp es u.1, waiting-Under s e.stamp es u.1)

  -- In an ordered work list a restriction loses no item, and keeps the order.
  pub waiting-restrict_worklist :
      (s stamp : ℕ) (q : Worklist A)
      → IsOrdered q
      → (waiting s (restrict_worklist stamp q) ≡ waiting s q)
        × IsOrdered (restrict_worklist stamp q)
  waiting-restrict_worklist s stamp q o =
      let (top, u) = ordered_Under q o in
      (
        waiting-restrict-Under s top stamp q u,
        Under-IsOrdered top (restrict_worklist stamp q) (restrict-Under top stamp q u),
      )

  -- The choice that is kept for a stamp.
  unfoldable pub choice_at : ℕ → List (ℕ × A) → Option A
  choice_at s [] = none
  choice_at s (c ∷ cs) = if c.0 == s then some c.1 else choice_at s cs

  -- After a restriction the choices up to the stamp are as they were, and there are none past it.
  pub choice_at-restrict_choices :
      (s stamp : ℕ) (cs : List (ℕ × A))
      → choice_at s (restrict_choices stamp cs) ≡ (if leb s stamp then choice_at s cs else none)
  unfolding restrict_choices choice_at
  choice_at-restrict_choices s stamp [] = ground arith
  choice_at-restrict_choices s stamp (c ∷ cs) =
      ground (arith, choice_at-restrict_choices s stamp cs)
