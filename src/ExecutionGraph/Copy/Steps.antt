-- ===== src/ExecutionGraph/Copy/Steps.antt =====
-- src/ExecutionGraph.cpp: the steps of `copyGraphUpTo` that leave the labels as they are.
use mathlib.Core.Option.{none-ne-some, some-injective}
use rustmc.Prelude.{ℕ, ◌≡◌, sym, ap, ◌∙◌, inl, inr, List, [], ◌∷◌, some, length}
use rustmc.Event.{Event}
use rustmc.MemAccess.{AAccess}
use rustmc.ExecutionGraph.{ExecutionGraph, LocMap, at_loc, or_empty}
use rustmc.ExecutionGraph.Change.{access_at, add_init_rf, is_overlapping, init_readers}
use rustmc.ExecutionGraph.Coherence.{word_of, add_store_to_co, add_stores_to_co}
use rustmc.ExecutionGraph.Addition.{if-gives, bind-gives}
use rustmc.ExecutionGraph.Copy.{
  VectorClock, copy_stores, copy_coherence, copy_readers, copy_init_rfs, passes_at, is_write_role,
  is_read_role,
}

-- The later steps of the copy leave the labels alone.
abbrev pub SameEvents : ExecutionGraph → ExecutionGraph → Type 0
SameEvents h k = ExecutionGraph.events k ≡ ExecutionGraph.events h

add_store_to_co-events :
    (h k : ExecutionGraph) (w : Event) (i : ℕ) → add_store_to_co h w i ≡ some k → SameEvents h k
unfolding add_store_to_co add_stores_to_co
add_store_to_co-events h k w i is =
    let (a, at, its) = bind-gives (access_at h w) _ k is in
    ap ExecutionGraph.events (sym (some-injective _ _ its))

copy_stores-events :
    (v : VectorClock) (ws : List Event) (h k : ExecutionGraph)
    → copy_stores v ws h ≡ some k
    → SameEvents h k
unfolding copy_stores
copy_stores-events v [] h k is = ap ExecutionGraph.events (sym (some-injective _ _ is))
copy_stores-events v (w ∷ ws) h k is = elim (if-gives (v.holds w) _ _ k is) [
  | inr skipped ↦ copy_stores-events v ws h k skipped.1
  | inl copied ↦
      let (b, f0, r0) = bind-gives (passes_at is_write_role h w) _ k copied.1 in
      let (a, f1, r1) = bind-gives (access_at h w) _ k r0 in
      elim (if-gives b _ _ k r1) [
        | inl added ↦
            let (g, f2, r2) =
              bind-gives (add_store_to_co h w (length (or_empty (at_loc h.coherence (word_of a)))))
                _ k added.1 in
            copy_stores-events v ws g k r2 ∙ add_store_to_co-events h g w _ f2
        | inr n ↦ absurd (none-ne-some _ n.1)
      ]
]

pub copy_coherence-events :
    (v : VectorClock) (m : LocMap) (h k : ExecutionGraph)
    → copy_coherence v m h ≡ some k
    → SameEvents h k
unfolding copy_coherence
copy_coherence-events v [] h k is = ap ExecutionGraph.events (sym (some-injective _ _ is))
copy_coherence-events v ((a, ws) ∷ m) h k is =
    let (g, f0, r0) = bind-gives (copy_stores v ws h) _ k is in
    copy_coherence-events v m g k r0 ∙ copy_stores-events v ws h g f0

add_init_rf-events :
    (h k : ExecutionGraph) (a : AAccess) (r : Event) → add_init_rf h a r ≡ some k → SameEvents h k
unfolding add_init_rf
add_init_rf-events h k a r is = elim (if-gives (is_overlapping h a r (init_readers h a)) _ _ k is) [
  | inl n ↦ absurd (none-ne-some _ n.1)
  | inr its ↦ ap ExecutionGraph.events (sym (some-injective _ _ its.1))
]

copy_readers-events :
    (v : VectorClock) (rs : List Event) (h k : ExecutionGraph)
    → copy_readers v rs h ≡ some k
    → SameEvents h k
unfolding copy_readers
copy_readers-events v [] h k is = ap ExecutionGraph.events (sym (some-injective _ _ is))
copy_readers-events v (r ∷ rs) h k is = elim (if-gives (v.holds r) _ _ k is) [
  | inr skipped ↦ copy_readers-events v rs h k skipped.1
  | inl copied ↦
      let (b, f0, r0) = bind-gives (passes_at is_read_role h r) _ k copied.1 in
      let (a, f1, r1) = bind-gives (access_at h r) _ k r0 in
      elim (if-gives b _ _ k r1) [
        | inl added ↦
            let (g, f2, r2) = bind-gives (add_init_rf h a r) _ k added.1 in
            copy_readers-events v rs g k r2 ∙ add_init_rf-events h g a r f2
        | inr n ↦ absurd (none-ne-some _ n.1)
      ]
]

pub copy_init_rfs-events :
    (g : ExecutionGraph) (v : VectorClock) (m : LocMap) (h k : ExecutionGraph)
    → copy_init_rfs g v m h ≡ some k
    → SameEvents h k
unfolding copy_init_rfs
copy_init_rfs-events g v [] h k is = ap ExecutionGraph.events (sym (some-injective _ _ is))
copy_init_rfs-events g v ((a, ws) ∷ m) h k is =
    let (rs, f0, r0) = bind-gives (at_loc g.init_rfs a) _ k is in
    let (j, f1, r1) = bind-gives (copy_readers v rs h) _ k r0 in
    copy_init_rfs-events g v m j k r1 ∙ copy_readers-events v rs h j f1
