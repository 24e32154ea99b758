-- ===== src/ExecutionGraph/Copy/Coverage.antt =====
-- src/ExecutionGraph.cpp: which positions of a graph the copy that `getCopyUpTo` makes has.
use mathlib.Core.Logic.{◌≢◌}
use mathlib.Core.Option.{none-ne-some, some-injective}
use rustmc.Prelude.{
  ℕ, zero, suc, ◌+◌, ◌≤◌, ◌<◌, ◌≡◌, sym, ap, subst, ◌∙◌, true, not, Bool-cases, inl, inr, Option,
  none, some, ◌==◌, if◌then◌else◌, ◌>>=◌, arith,
}
use rustmc.Event.{Event, same, init}
use rustmc.EventLabel.{EventLabel, Role}
use rustmc.ExecutionGraph.{
  ExecutionGraph, get_event_label, contains_pos, remove_if, add_label_to_graph,
}
use rustmc.ExecutionGraph.Change.{change_readers}
use rustmc.ExecutionGraph.Positions.{map_option, same_refl}
use rustmc.ExecutionGraph.Readers.{role_at, role_at-change}
use rustmc.ExecutionGraph.Validate.{IsPlaced}
use rustmc.ExecutionGraph.Addition.{role_at-add_label_to_graph, if-gives, bind-gives}
use rustmc.ExecutionGraph.Copy.{
  VectorClock, create_hole_label, note_label, copy_event, copy_events, copy_thread, copy_threads,
}
use rustmc.ExecutionGraph.Copy.Origin.{if-both, role_at-note_label}

-- A label stands at the position.
abbrev pub IsThere : ExecutionGraph → Event → Type 0
IsThere h p = role_at h p ≢ none

abbrev Keeps : ExecutionGraph → ExecutionGraph → Type 0
Keeps h k = (p : Event) → IsThere h p → IsThere k p

add_label_to_graph-Keeps :
    (h k : ExecutionGraph) (l : EventLabel) → add_label_to_graph h l ≡ some k → Keeps h k
add_label_to_graph-Keeps h k l is p there =
    subst (λ u. u ≢ none) (sym (role_at-add_label_to_graph h k l p is))
      (if-both (λ u. u ≢ none) (same l.pos p) _ _ (λ s n. none-ne-some _ (sym n)) there)

add_label_to_graph-IsThere :
    (h k : ExecutionGraph) (l : EventLabel) → add_label_to_graph h l ≡ some k → IsThere k l.pos
add_label_to_graph-IsThere h k l is n =
    let its =
      role_at-add_label_to_graph h k l l.pos is
      ∙ ap (λ b. if b then some l.role else role_at h l.pos) (same_refl l.pos) in
    none-ne-some _ (sym n ∙ its)

map_option-there : (f : Role → Role) (o : Option Role) → o ≢ none → map_option f o ≢ none
map_option-there f none there = there
map_option-there f (some r) there = λ n. none-ne-some _ (sym n)

note_label-Keeps :
    (v : VectorClock) (l : EventLabel) (h : ExecutionGraph) → Keeps h (note_label v l h)
note_label-Keeps v l h p there =
    let f = change_readers (remove_if (λ r. not (v.holds r))) in
    subst (λ u. u ≢ none) (sym (role_at-note_label v l h p ∙ role_at-change f h l.pos p))
      (if-both (λ u. u ≢ none) (same l.pos p) _ _ (λ s. map_option-there f (role_at h p) there)
        there)

copy_event-Keeps :
    (g : ExecutionGraph) (v : VectorClock) (e : Event) (h k : ExecutionGraph)
    → copy_event g v e h ≡ some k
    → Keeps h k
unfolding copy_event
copy_event-Keeps g v e h k is p there = elim (if-gives (not (v.holds e)) _ _ k is) [
  | inl added ↦ add_label_to_graph-Keeps h k (create_hole_label e) added.1 p there
  | inr rest ↦ elim (if-gives (contains_pos g e) _ _ k rest.1) [
    | inr its ↦ subst (λ u. IsThere u p) (some-injective _ _ its.1) there
    | inl copied ↦
        let (l, at, r0) = bind-gives (get_event_label g e) _ k copied.1 in
        let (j, added, r1) = bind-gives (add_label_to_graph h l) _ k r0 in
        subst (λ u. IsThere u p) (some-injective _ _ r1)
          (note_label-Keeps v l j p (add_label_to_graph-Keeps h j l added p there))
  ]
]

copy_event-IsThere :
    (g : ExecutionGraph) (v : VectorClock) (e : Event) (h k : ExecutionGraph)
    → IsPlaced g
    → contains_pos g e ≡ true
    → copy_event g v e h ≡ some k
    → IsThere k e
unfolding copy_event create_hole_label
copy_event-IsThere g v e h k placed inside is = elim (if-gives (not (v.holds e)) _ _ k is) [
  | inl added ↦ add_label_to_graph-IsThere h k (create_hole_label e) added.1
  | inr rest ↦ elim (if-gives (contains_pos g e) _ _ k rest.1) [
    | inr its ↦ ground (arith, inside, its.0)
    | inl copied ↦
        let (l, at, r0) = bind-gives (get_event_label g e) _ k copied.1 in
        let (j, added, r1) = bind-gives (add_label_to_graph h l) _ k r0 in
        subst (λ u. IsThere u e) (some-injective _ _ r1)
          (note_label-Keeps v l j e
            (subst (IsThere j) (placed e l at) (add_label_to_graph-IsThere h j l added)))
  ]
]

copy_events-Keeps :
    (g : ExecutionGraph) (v : VectorClock) (i left j : ℕ) (h k : ExecutionGraph)
    → copy_events g v i left j h ≡ some k
    → Keeps h k
unfolding copy_events
copy_events-Keeps g v i zero j h k is p there =
    subst (λ u. IsThere u p) (some-injective _ _ is) there
copy_events-Keeps g v i (suc left) j h k is p there =
    let e : Event = record { thread = i; index = j } in
    let (m, one, r0) = bind-gives (copy_event g v e h) _ k is in
    copy_events-Keeps g v i left (suc j) m k r0 p (copy_event-Keeps g v e h m one p there)

copy_events-IsThere :
    (g : ExecutionGraph) (v : VectorClock) (i left j x : ℕ) (h k : ExecutionGraph)
    → IsPlaced g
    → contains_pos g (record { thread = i; index = x }) ≡ true
    → j ≤ x
    → x < j + left
    → copy_events g v i left j h ≡ some k
    → IsThere k (record { thread = i; index = x })
unfolding copy_events
copy_events-IsThere g v i zero j x h k placed inside lo hi is = absurd (omega (arith, lo, hi))
copy_events-IsThere g v i (suc left) j x h k placed inside lo hi is =
    let e : Event = record { thread = i; index = j } in
    let (m, one, r0) = bind-gives (copy_event g v e h) _ k is in
    elim (Bool-cases (j == x)) [
      | inl y ↦
          let its : j ≡ x = ground (arith, y) in
          copy_events-Keeps g v i left (suc j) m k r0 _ (
            subst (λ u. IsThere m (record { thread = i; index = u })) its
              (copy_event-IsThere g v e h m placed
                (subst (λ u. contains_pos g (record { thread = i; index = u }) ≡ true) (sym its)
                  inside)
                one))
      | inr n ↦
          copy_events-IsThere g v i left (suc j) x m k placed inside (ground (arith, n, lo))
            (omega (arith, hi)) r0
    ]

-- The first event of a thread, which the copy has, and the rest of the thread.
copy_thread-Keeps :
    (g : ExecutionGraph) (v : VectorClock) (i : ℕ) (h k : ExecutionGraph)
    → copy_thread g v i h ≡ some k
    → Keeps h k
unfolding copy_thread
copy_thread-Keeps g v i h k is p there =
    let first : Event = record { thread = i; index = 0 } in
    let (m, begun, r0) =
      bind-gives
        (if i == 0 then some h else (get_event_label g first >>= λ l. add_label_to_graph h l)) _ k
        is in
    let started : IsThere m p = elim (if-gives (i == 0) _ _ m begun) [
      | inl its ↦ subst (λ u. IsThere u p) (some-injective _ _ its.1) there
      | inr added ↦
          let (l, at, r1) = bind-gives (get_event_label g first) _ m added.1 in
          add_label_to_graph-Keeps h m l r1 p there
    ] in
    copy_events-Keeps g v i (v.max i) 1 m k r0 p started

copy_thread-IsThere :
    (g : ExecutionGraph) (v : VectorClock) (i x : ℕ) (h k : ExecutionGraph)
    → IsPlaced g
    → IsThere h init
    → contains_pos g (record { thread = i; index = x }) ≡ true
    → x ≤ v.max i
    → copy_thread g v i h ≡ some k
    → IsThere k (record { thread = i; index = x })
unfolding copy_thread
copy_thread-IsThere g v i zero h k placed start inside hi is =
    let first : Event = record { thread = i; index = 0 } in
    let (m, begun, r0) =
      bind-gives
        (if i == 0 then some h else (get_event_label g first >>= λ l. add_label_to_graph h l)) _ k
        is in
    let started : IsThere m first = elim (if-gives (i == 0) _ _ m begun) [
      | inl its ↦
          subst (λ u. IsThere u first) (some-injective _ _ its.1)
            (subst (λ u. IsThere h (record { thread = u; index = 0 })) (ground (arith, its.0))
              start)
      | inr added ↦
          let (l, at, r1) = bind-gives (get_event_label g first) _ m added.1 in
          subst (IsThere m) (placed first l at) (add_label_to_graph-IsThere h m l r1)
    ] in
    copy_events-Keeps g v i (v.max i) 1 m k r0 first started
copy_thread-IsThere g v i (suc x) h k placed start inside hi is =
    let first : Event = record { thread = i; index = 0 } in
    let (m, begun, r0) =
      bind-gives
        (if i == 0 then some h else (get_event_label g first >>= λ l. add_label_to_graph h l)) _ k
        is in
    copy_events-IsThere g v i (v.max i) 1 (suc x) m k placed inside (omega arith)
      (omega (arith, hi)) r0

copy_threads-Keeps :
    (g : ExecutionGraph) (v : VectorClock) (left i : ℕ) (h k : ExecutionGraph)
    → copy_threads g v left i h ≡ some k
    → Keeps h k
unfolding copy_threads
copy_threads-Keeps g v zero i h k is p there =
    subst (λ u. IsThere u p) (some-injective _ _ is) there
copy_threads-Keeps g v (suc left) i h k is p there =
    let (m, one, r0) = bind-gives (copy_thread g v i h) _ k is in
    copy_threads-Keeps g v left (suc i) m k r0 p (copy_thread-Keeps g v i h m one p there)

pub copy_threads-IsThere :
    (g : ExecutionGraph) (v : VectorClock) (left i t x : ℕ) (h k : ExecutionGraph)
    → IsPlaced g
    → IsThere h init
    → contains_pos g (record { thread = t; index = x }) ≡ true
    → x ≤ v.max t
    → i ≤ t
    → t < i + left
    → copy_threads g v left i h ≡ some k
    → IsThere k (record { thread = t; index = x })
unfolding copy_threads
copy_threads-IsThere g v zero i t x h k placed start inside top lo hi is =
    absurd (omega (arith, lo, hi))
copy_threads-IsThere g v (suc left) i t x h k placed start inside top lo hi is =
    let (m, one, r0) = bind-gives (copy_thread g v i h) _ k is in
    elim (Bool-cases (i == t)) [
      | inl y ↦
          let its : i ≡ t = ground (arith, y) in
          copy_threads-Keeps g v left (suc i) m k r0 _ (
            subst (λ u. IsThere m (record { thread = u; index = x })) its
              (copy_thread-IsThere g v i x h m placed start
                (subst (λ u. contains_pos g (record { thread = u; index = x }) ≡ true) (sym its)
                  inside)
                (subst (λ u. x ≤ v.max u) (sym its) top) one))
      | inr n ↦
          copy_threads-IsThere g v left (suc i) t x m k placed
            (copy_thread-Keeps g v i h m one init start) inside top (ground (arith, n, lo))
            (omega (arith, hi)) r0
    ]
