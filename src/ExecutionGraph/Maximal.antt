-- ===== src/ExecutionGraph/Maximal.antt =====
-- src/ExecutionGraph.hpp and src/ExecutionGraph.cpp: which store is maximal in coherence order, and stores that
-- are added to the order and removed from it.
use mathlib.Core.Option.{none-ne-some, some-injective}
use rustmc.Prelude.{
  ℕ, zero, suc, ◌≡◌, refl, sym, ap, subst, ◌∙◌, Bool, true, false, not, ◌&&◌, Bool-cases, inl, inr,
  List, [], ◌∷◌, ◌++◌, some, ◌==◌, if◌then◌else◌, ◌>>=◌, arith, length, take, drop,
}
use rustmc.Event.{Event, init, same, is_initializer}
use rustmc.MemAccess.{AAccess, overlaps}
use rustmc.ExecutionGraph.{ExecutionGraph, LocMap, has_event, remove_if, at_loc, put_loc, or_empty}
use rustmc.ExecutionGraph.Change.{access_at}
use rustmc.ExecutionGraph.Updates.{overlaps_at, overlapping}
use rustmc.ExecutionGraph.Positions.{same_iff, same_refl}
use rustmc.ExecutionGraph.Coherence.{
  word_of, co_list, co_stores, last_store, is_loc_empty, is_nil, is_co_maximal, same_as,
  add_stores_to_co, add_store_to_co, remove_store_from_co,
}

at_loc-put_loc-here : (m : LocMap) (a : ℕ) (fs : List Event) → at_loc (put_loc m a fs) a ≡ some fs
unfolding at_loc put_loc
at_loc-put_loc-here [] a fs = ground arith
at_loc-put_loc-here ((b, es) ∷ m) a fs = ground (arith, at_loc-put_loc-here m a fs)

put_loc-put_loc :
    (m : LocMap) (a : ℕ) (es fs : List Event)
    → at_loc m a ≡ some es
    → put_loc (put_loc m a fs) a es ≡ m
unfolding at_loc put_loc
put_loc-put_loc [] a es fs h = absurd (none-ne-some _ h)
put_loc-put_loc ((b, ds) ∷ m) a es fs h = elim (Bool-cases (b == a)) [
  | inl y ↦
      let here : ds ≡ es = some-injective _ _ (sym (rw y refl) ∙ h) in rw (y, here) (rw y refl)
  | inr n ↦
      let rest : at_loc m a ≡ some es = sym (rw n refl) ∙ h in
      rw n (rw n (ap (λ u. (b, ds) ∷ u) (put_loc-put_loc m a es fs rest)))
]

remove_if-none :
    (w : Event) (es : List Event) → has_event w es ≡ false → remove_if (λ e. same e w) es ≡ es
unfolding remove_if has_event
remove_if-none w [] h = refl
remove_if-none w (e ∷ es) h =
    let other : same e w ≡ false = ground (arith, h) in
    rw other (ap (λ u. e ∷ u) (remove_if-none w es (ground (arith, h))))

remove_if-insert :
    (w : Event) (i : ℕ) (es : List Event)
    → has_event w es ≡ false
    → remove_if (λ e. same e w) (take i es ++ w ∷ drop i es) ≡ es
unfolding remove_if has_event
remove_if-insert w zero es h = rw (same_refl w) (remove_if-none w es h)
remove_if-insert w (suc i) [] h = rw (same_refl w) refl
remove_if-insert w (suc i) (e ∷ es) h =
    let other : same e w ≡ false = ground (arith, h) in
    rw other (ap (λ u. e ∷ u) (remove_if-insert w i es (ground (arith, h))))

overlapping-append :
    (g : ExecutionGraph) (a : AAccess) (w : Event) (es : List Event)
    → access_at g w ≡ some a
    → overlaps a a ≡ true
    → overlapping g a (es ++ w ∷ []) ≡ overlapping g a es ++ w ∷ []
unfolding overlapping overlaps_at
overlapping-append g a w [] h o =
    let here : overlaps_at a (access_at g w) ≡ true = ap (overlaps_at a) h ∙ o in rw here refl
overlapping-append g a w (e ∷ es) h o = elim (Bool-cases (overlaps_at a (access_at g e))) [
  | inl y ↦ rw y (ap (λ u. e ∷ u) (overlapping-append g a w es h o))
  | inr n ↦ rw n (overlapping-append g a w es h o)
]

last_store-append : (es : List Event) (w : Event) → last_store (es ++ w ∷ []) ≡ some w
unfolding last_store
last_store-append [] w = refl
last_store-append (e ∷ []) w = refl
last_store-append (e ∷ f ∷ es) w = last_store-append (f ∷ es) w

is_nil-append : (es : List Event) (w : Event) → is_nil (es ++ w ∷ []) ≡ false
is_nil-append [] w = refl
is_nil-append (e ∷ es) w = refl

last_store-found :
    (e : Event) (es : List Event)
    → (x : Event) × (last_store (e ∷ es) ≡ some x) × (has_event x (e ∷ es) ≡ true)
unfolding last_store has_event
last_store-found e [] = (e, refl, ground (arith, same_refl e))
last_store-found e (f ∷ es) = let (x, l, h) = last_store-found f es in (x, l, ground (arith, h))

-- The answers of `isCoMaximal` where the stores of the access are known.
maximal_among : (es : List Event) (e : Event) → Bool
maximal_among es e =
    if is_initializer e then is_nil es else not (is_nil es) && same_as e (last_store es)

not_init :
    (x : Event) (es : List Event)
    → has_event x es ≡ true
    → has_event init es ≡ false
    → is_initializer x ≡ false
not_init x es has h = elim (Bool-cases (is_initializer x)) [
  | inl y ↦ absurd (ground (arith, has, h, ap (λ u. has_event u es) (same_iff x init y)))
  | inr n ↦ n
]

maximal_among_unique :
    (es : List Event)
    → has_event init es ≡ false
    → (e : Event) × (maximal_among es e ≡ true) × ((f : Event) → maximal_among es f ≡ true → f ≡ e)
unfolding maximal_among same_as last_store
maximal_among_unique [] h = (init, refl, λ f y. same_iff f init (ground (arith, y)))
maximal_among_unique (d ∷ es) h =
    let (x, last, has) = last_store-found d es in
    let apart : is_initializer x ≡ false = not_init x (d ∷ es) has h in
    (
      x,
      rw (apart, last) (same_refl x),
      λ f y. same_iff f x (elim (Bool-cases (is_initializer f)) [
        | inl i ↦ absurd (ground (arith, y, i))
        | inr n ↦
            let now : same_as f (last_store (d ∷ es)) ≡ true = sym (rw n refl) ∙ y in
            subst (λ o. same_as f o ≡ true) last now
      ]),
    )

is_co_maximal-among :
    (g : ExecutionGraph) (a : AAccess) (es : List Event) (e : Event)
    → at_loc g.coherence (word_of a) ≡ some es
    → is_co_maximal g a e ≡ some (maximal_among (overlapping g a es) e)
unfolding is_co_maximal is_loc_empty co_list co_stores or_empty maximal_among
is_co_maximal-among g a es e h = rw h refl

-- When the word of an access has an entry in the coherence order, and the initializer is no store of it,
-- there is exactly one event for which `isCoMaximal` answers that it is maximal.
pub is_co_maximal_unique :
    (g : ExecutionGraph) (a : AAccess) (es : List Event)
    → at_loc g.coherence (word_of a) ≡ some es
    → has_event init (overlapping g a es) ≡ false
    → (e : Event) × (is_co_maximal g a e ≡ some true)
      × ((f : Event) → is_co_maximal g a f ≡ some true → f ≡ e)
is_co_maximal_unique g a es at h =
    let (e, is, only) = maximal_among_unique (overlapping g a es) h in
    (
      e,
      is_co_maximal-among g a es e at ∙ ap some is,
      λ f y. only f (some-injective _ _ (sym (is_co_maximal-among g a es f at) ∙ y)),
    )

maximal_among-append :
    (xs : List Event) (w e : Event)
    → is_initializer w ≡ false
    → maximal_among (xs ++ w ∷ []) e ≡ same e w
unfolding maximal_among same_as
maximal_among-append xs w e h =
    let last = last_store-append xs w in
    let some_store = is_nil-append xs w in
    elim (Bool-cases (is_initializer e)) [
      | inl y ↦ rw (y, some_store) (ground (arith, h, y))
      | inr n ↦ rw (n, some_store, last) refl
    ]

take_all : (es : List Event) → (take (length es) es ≡ es) × (drop (length es) es ≡ [])
take_all [] = (refl, refl)
take_all (e ∷ es) = (ap (λ u. e ∷ u) (take_all es).0, (take_all es).1)

-- When a write with an access that overlaps with itself is added at the end of the coherence order of its
-- word, `isCoMaximal` answers for the access that the write is maximal, and that no other event is.
pub add_store_to_co_maximal :
    (g : ExecutionGraph) (a : AAccess) (w : Event) (es : List Event)
    → access_at g w ≡ some a
    → overlaps a a ≡ true
    → is_initializer w ≡ false
    → at_loc g.coherence (word_of a) ≡ some es
    → (h : ExecutionGraph) × (add_store_to_co g w (length es) ≡ some h)
      × ((e : Event) → is_co_maximal h a e ≡ some (same e w))
unfolding add_store_to_co add_stores_to_co or_empty access_at overlapping
add_store_to_co_maximal g a w es at o n found =
    let h = add_stores_to_co g (w ∷ []) a (length es) in
    let all = take_all es in
    let added : at_loc (ExecutionGraph.coherence h) (word_of a) ≡ some (es ++ w ∷ []) =
      at_loc-put_loc-here g.coherence (word_of a) _
      ∙ ap
          (λ o. some (take (length es) (or_empty o) ++ ((w ∷ []) ++ drop (length es) (or_empty o))))
          found
      ∙ rw (all.0, all.1) refl in
    (
      h,
      rw at refl,
      λ e.
          is_co_maximal-among h a (es ++ w ∷ []) e added
          ∙ ap (λ u. some (maximal_among u e)) (overlapping-append h a w es at o)
          ∙ ap some (maximal_among-append (overlapping h a es) w e n),
    )

-- When a write that is not in the coherence order of its word is added at any place of it and removed again,
-- the graph is as before.
pub remove_store_from_co-add_store_to_co :
    (g : ExecutionGraph) (a : AAccess) (w : Event) (es : List Event) (i : ℕ)
    → access_at g w ≡ some a
    → at_loc g.coherence (word_of a) ≡ some es
    → has_event w es ≡ false
    → (add_store_to_co g w i >>= λ h. remove_store_from_co h w) ≡ some g
unfolding add_store_to_co add_stores_to_co remove_store_from_co or_empty access_at
remove_store_from_co-add_store_to_co g a w es i at found out =
    let h = add_stores_to_co g (w ∷ []) a i in
    let run : add_store_to_co g w i ≡ some h = rw at refl in
    let back : or_empty (at_loc (ExecutionGraph.coherence h) (word_of a))
        ≡ take i es ++ w ∷ drop i es =
      ap or_empty (at_loc-put_loc-here g.coherence (word_of a) _)
      ∙ ap (λ o. take i (or_empty o) ++ ((w ∷ []) ++ drop i (or_empty o))) found in
    let gone = ap (remove_if (λ e. same e w)) back ∙ remove_if-insert w i es out in
    let order : put_loc (ExecutionGraph.coherence h) (word_of a)
          (remove_if (λ e. same e w) (or_empty (at_loc (ExecutionGraph.coherence h) (word_of a))))
        ≡ g.coherence =
      ap (put_loc (ExecutionGraph.coherence h) (word_of a)) gone
      ∙ put_loc-put_loc g.coherence (word_of a) es _ found in
    let step : remove_store_from_co h w ≡ some g =
      ap
        (λ o. o >>= λ b. some (record g {
          coherence = put_loc (ExecutionGraph.coherence h) (word_of b) (
              remove_if (λ e. same e w)
                (or_empty (at_loc (ExecutionGraph.coherence h) (word_of b))));
        }))
        at
      ∙ ap (λ c. some (record g { coherence = c })) order in
    ap (λ o. o >>= λ h. remove_store_from_co h w) run ∙ step
