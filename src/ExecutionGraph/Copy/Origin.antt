-- ===== src/ExecutionGraph/Copy/Origin.antt =====
-- src/ExecutionGraph.cpp: where the labels come from that `copyGraphUpTo` adds, before their pointers are set.
use rustmc.Prelude.{
  ℕ, zero, suc, ◌≡◌, refl, sym, ap, subst, ◌∙◌, Bool, true, false, not, inl, inr, ◌⊎◌, List, [],
  Option, Option-cases, none, some, if◌then◌else◌, ◌>>=◌, ◌==◌, arith,
}
use mathlib.Core.Option.{some-injective}
use rustmc.Event.{Event, same, init}
use rustmc.EventLabel.{EventLabel, Role, OtherKind, read, write, thread_finish, malloc, free, other}
use rustmc.ExecutionGraph.{
  ExecutionGraph, get_event_label, contains_pos, remove_if, add_label_to_graph,
}
use rustmc.ExecutionGraph.Change.{change_readers, change_role, mem_in, rfs_in}
use rustmc.ExecutionGraph.Positions.{map_option, same_iff}
use rustmc.ExecutionGraph.Readers.{role_of, role_at, role_at-change, reads_from}
use rustmc.ExecutionGraph.Validate.{IsPlaced}
use rustmc.ExecutionGraph.Coherence.{track_coherence_at_loc}
use rustmc.ExecutionGraph.Addition.{role_at-add_label_to_graph, if-gives, bind-gives}
use rustmc.ExecutionGraph.Copy.{
  VectorClock, create_hole_label, note_label, copy_event, copy_events, copy_thread, copy_threads,
}

-- A role without its pointers to other labels.
unfoldable pub bare : Role → Role
bare (read k m rfs) = read k (record m { alloc = none }) []
bare (write k m x at rs) = write k (record m { alloc = none }) x at []
bare (thread_finish j) = thread_finish none
bare (malloc x n d ms) = malloc x n none []
bare (free k x a) = free k x none
bare role = role

abbrev IsNoted : ExecutionGraph → Event → Option Role → Type 0
IsNoted g p o =
    (map_option bare o ≡ map_option bare (role_at g p))
    × ((w : Event) → reads_from o w ≡ reads_from (role_at g p) w)

-- The label of a position of the copy: none, the initializer, a hole, or as in the graph.
abbrev pub IsFrom : ExecutionGraph → VectorClock → Event → Option Role → Type 0
IsFrom g v p o =
    (o ≡ none)
    ⊎ (((p ≡ init) × (o ≡ some Role.init))
        ⊎ (((v.holds p ≡ false) × (o ≡ some (other OtherKind.empty))) ⊎ IsNoted g p o))

abbrev pub AllFrom : ExecutionGraph → VectorClock → ExecutionGraph → Type 0
AllFrom g v h = (p : Event) → IsFrom g v p (role_at h p)

bare-change_readers :
    (f : List Event → List Event) (o : Option Role)
    → map_option bare (map_option (change_readers f) o) ≡ map_option bare o
unfolding bare change_readers
bare-change_readers f none = refl
bare-change_readers f (some (write k m x at rs)) = refl
bare-change_readers f (some role) = refl

reads_from-change_readers :
    (f : List Event → List Event) (o : Option Role) (w : Event)
    → reads_from (map_option (change_readers f) o) w ≡ reads_from o w
unfolding reads_from change_readers rfs_in
reads_from-change_readers f none w = refl
reads_from-change_readers f (some (write k m x at rs)) w = refl
reads_from-change_readers f (some role) w = refl

IsFrom-change_readers :
    (g : ExecutionGraph) (v : VectorClock) (p : Event) (f : List Event → List Event)
    (o : Option Role)
    → IsFrom g v p o
    → IsFrom g v p (map_option (change_readers f) o)
unfolding change_readers
IsFrom-change_readers g v p f o (inl n) = inl (ap (map_option (change_readers f)) n)
IsFrom-change_readers g v p f o (inr (inl (i, r))) =
    inr (inl (i, ap (map_option (change_readers f)) r))
IsFrom-change_readers g v p f o (inr (inr (inl (n, r)))) =
    inr (inr (inl (n, ap (map_option (change_readers f)) r)))
IsFrom-change_readers g v p f o (inr (inr (inr (same_role, reads)))) = inr (
    inr (inr (bare-change_readers f o ∙ same_role, λ w. reads_from-change_readers f o w ∙ reads w)))

-- A value that is chosen by a test has what both have.
pub if-both {ℓ κ} :
    {A : Type ℓ} (P : A → Type κ) (b : Bool) (x y : A)
    → (b ≡ true → P x)
    → P y
    → P (if b then x else y)
if-both P true x y here there = here refl
if-both P false x y here there = there

-- A label that is added where it may stand.
AllFrom-add_label_to_graph :
    (g : ExecutionGraph) (v : VectorClock) (h k : ExecutionGraph) (l : EventLabel)
    → AllFrom g v h
    → IsFrom g v l.pos (some l.role)
    → add_label_to_graph h l ≡ some k
    → AllFrom g v k
AllFrom-add_label_to_graph g v h k l all here is p =
    subst (IsFrom g v p) (sym (role_at-add_label_to_graph h k l p is)) (
      if-both (IsFrom g v p) (same l.pos p) (some l.role) (role_at h p)
        (λ s. subst (λ q. IsFrom g v q (some l.role)) (same_iff l.pos p s) here) (all p))

-- A label of the graph.
IsFrom-label :
    (g : ExecutionGraph) (v : VectorClock) (e : Event) (l : EventLabel)
    → IsPlaced g
    → get_event_label g e ≡ some l
    → IsFrom g v l.pos (some l.role)
unfolding role_at
IsFrom-label g v e l placed at =
    let its : role_at g l.pos ≡ some l.role = ap (role_at g) (placed e l at) ∙ ap role_of at in
    inr (inr (inr (ap (map_option bare) (sym its), λ w. ap (λ u. reads_from u w) (sym its))))

pub role_at-note_label :
    (v : VectorClock) (l : EventLabel) (h : ExecutionGraph) (p : Event)
    → role_at (note_label v l h) p
      ≡ role_at (change_role (change_readers (remove_if (λ r. not (v.holds r)))) h l.pos) p
unfolding note_label track_coherence_at_loc role_at get_event_label
role_at-note_label v l h p = elim (Option-cases (mem_in l.role)) [
  | inl n ↦ rw (n, note_label) refl
  | inr m ↦ rw (m.1, note_label) refl
]

AllFrom-note_label :
    (g : ExecutionGraph) (v : VectorClock) (l : EventLabel) (h : ExecutionGraph)
    → AllFrom g v h
    → AllFrom g v (note_label v l h)
AllFrom-note_label g v l h all p =
    let f = change_readers (remove_if (λ r. not (v.holds r))) in
    subst (IsFrom g v p) (sym (role_at-note_label v l h p ∙ role_at-change f h l.pos p)) (
      if-both (IsFrom g v p) (same l.pos p) (map_option f (role_at h p)) (role_at h p)
        (λ s. IsFrom-change_readers g v p (remove_if (λ r. not (v.holds r))) (role_at h p) (all p))
        (all p))

copy_event-AllFrom :
    (g : ExecutionGraph) (v : VectorClock) (e : Event) (h k : ExecutionGraph)
    → IsPlaced g
    → AllFrom g v h
    → copy_event g v e h ≡ some k
    → AllFrom g v k
unfolding copy_event create_hole_label
copy_event-AllFrom g v e h k placed all is = elim (if-gives (not (v.holds e)) _ _ k is) [
  | inl (n, added) ↦
      AllFrom-add_label_to_graph g v h k (create_hole_label e) all
        (inr (inr (inl (ground (arith, n), refl)))) added
  | inr (y, rest) ↦ elim (if-gives (contains_pos g e) _ _ k rest) [
    | inr (n, its) ↦ subst (AllFrom g v) (some-injective _ _ its) all
    | inl (inside, copied) ↦
        let (l, at, r0) = bind-gives (get_event_label g e) _ k copied in
        let (j, added, r1) = bind-gives (add_label_to_graph h l) _ k r0 in
        subst (AllFrom g v) (some-injective _ _ r1) (
          AllFrom-note_label g v l j
            (AllFrom-add_label_to_graph g v h j l all (IsFrom-label g v e l placed at) added))
  ]
]

copy_events-AllFrom :
    (g : ExecutionGraph) (v : VectorClock) (i left j : ℕ) (h k : ExecutionGraph)
    → IsPlaced g
    → AllFrom g v h
    → copy_events g v i left j h ≡ some k
    → AllFrom g v k
unfolding copy_events
copy_events-AllFrom g v i zero j h k placed all is = subst (AllFrom g v) (some-injective _ _ is) all
copy_events-AllFrom g v i (suc left) j h k placed all is =
    let e : Event = record { thread = i; index = j } in
    let (m, one, r0) = bind-gives (copy_event g v e h) _ k is in
    copy_events-AllFrom g v i left (suc j) m k placed (copy_event-AllFrom g v e h m placed all one)
      r0

copy_thread-AllFrom :
    (g : ExecutionGraph) (v : VectorClock) (i : ℕ) (h k : ExecutionGraph)
    → IsPlaced g
    → AllFrom g v h
    → copy_thread g v i h ≡ some k
    → AllFrom g v k
unfolding copy_thread
copy_thread-AllFrom g v i h k placed all is =
    let first : Event = record { thread = i; index = 0 } in
    let (m, begun, r0) =
      bind-gives
        (if i == 0 then some h else (get_event_label g first >>= λ l. add_label_to_graph h l)) _ k
        is in
    let started : AllFrom g v m = elim (if-gives (i == 0) _ _ m begun) [
      | inl (y, its) ↦ subst (AllFrom g v) (some-injective _ _ its) all
      | inr (n, added) ↦
          let (l, at, r1) = bind-gives (get_event_label g first) _ m added in
          AllFrom-add_label_to_graph g v h m l all (IsFrom-label g v first l placed at) r1
    ] in
    copy_events-AllFrom g v i (v.max i) 1 m k placed started r0

pub copy_threads-AllFrom :
    (g : ExecutionGraph) (v : VectorClock) (left i : ℕ) (h k : ExecutionGraph)
    → IsPlaced g
    → AllFrom g v h
    → copy_threads g v left i h ≡ some k
    → AllFrom g v k
unfolding copy_threads
copy_threads-AllFrom g v zero i h k placed all is = subst (AllFrom g v) (some-injective _ _ is) all
copy_threads-AllFrom g v (suc left) i h k placed all is =
    let (m, one, r0) = bind-gives (copy_thread g v i h) _ k is in
    copy_threads-AllFrom g v left (suc i) m k placed (copy_thread-AllFrom g v i h m placed all one)
      r0
