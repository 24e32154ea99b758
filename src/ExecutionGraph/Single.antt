-- ===== src/ExecutionGraph/Single.antt =====
-- src/ExecutionGraph.cpp: `changeRf` of one store, by the other form of it.
use mathlib.Core.Option.{none-ne-some, some-injective}
use rustmc.Prelude.{
  ◌≡◌, ◌≤◌, refl, sym, subst, ◌∙◌, true, Option-cases, inl, inr, [], ◌∷◌, Option, none, some, ◌>>=◌,
  arith, length,
}
use rustmc.Event.{Event}
use rustmc.MemAccess.{AAccess}
use rustmc.EventLabel.{EventLabel, ReadKind, Rfs, MemAccess, read}
use rustmc.ExecutionGraph.{ExecutionGraph, get_event_label, has_event}
use rustmc.ExecutionGraph.Change.{
  detach_all, attach_all, stores_of, store_rfs, detach_first, attach_store, change_read,
  change_parts, change_rfs, change_rf,
}
use rustmc.ExecutionGraph.Positions.{same_iff}
use rustmc.ExecutionGraph.Readers.{role_at, has_store, is_target, HasReaders}
use rustmc.ExecutionGraph.Rewire.{IsRewired, change_rfs-IsRewired}

bind_some {ℓ} : {A : Type ℓ} (o : Option A) → (o >>= λ a. some a) ≡ o
bind_some none = refl
bind_some (some a) = refl

change_read-parts :
    (g : ExecutionGraph) (r : Event) (store : Option Event) (k : ReadKind) (m : MemAccess)
    (old : Rfs)
    → length old ≤ 1
    → change_read g r store (read k m old)
      ≡ change_parts g r (store_rfs m.access store) (read k m old)
unfolding change_read change_parts store_rfs detach_first attach_store detach_all attach_all
    stores_of has_event
change_read-parts g r none k m [] h = refl
change_read-parts g r none k m (x ∷ []) h = refl
change_read-parts g r (some w) k m [] h = sym (bind_some _)
change_read-parts g r (some w) k m (x ∷ []) h = sym (bind_some _)
change_read-parts g r store k m (x ∷ y ∷ old) h = absurd (omega (arith, h))

store_target :
    (g : ExecutionGraph) (a : AAccess) (store : Option Event) (w : Event)
    → ((v : Event) → store ≡ some v → is_target (role_at g v) v ≡ true)
    → has_store w (store_rfs a store) ≡ true
    → is_target (role_at g w) w ≡ true
unfolding store_rfs has_store
store_target g a none w t h = absurd (ground (arith, h))
store_target g a (some v) w t h =
    subst (λ u. is_target (role_at g u) u ≡ true) (same_iff v w (ground (arith, h))) (t v refl)

-- When the graph lists the right readers, a position is of a read that reads from one store at most, and
-- the given store, if there is one, is a write of the graph or the initializer, then `changeRf` of one store
-- ends without an abort, the read reads from that store alone, or from nothing, what the other reads read
-- from is as before, and the graph lists the right readers again.
pub change_rf-IsRewired :
    (g : ExecutionGraph) (r : Event) (store : Option Event) (k : ReadKind) (m : MemAccess)
    (old : Rfs)
    → HasReaders g
    → role_at g r ≡ some (read k m old)
    → length old ≤ 1
    → ((w : Event) → store ≡ some w → is_target (role_at g w) w ≡ true)
    → (h : ExecutionGraph) × (change_rf g r store ≡ some h)
      × IsRewired g r (store_rfs m.access store) h
unfolding change_rf change_rfs role_at
change_rf-IsRewired g r store k m old is e l t = elim (Option-cases (get_event_label g r)) [
  | inl n ↦ absurd (none-ne-some _ (sym (rw n refl) ∙ e))
  | inr p ↦
      let its : EventLabel.role p.0 ≡ read k m old = some-injective _ _ (sym (rw p.1 refl) ∙ e) in
      let same_run : change_rf g r store ≡ change_rfs g r (store_rfs m.access store) =
        rw (p.1, its) (change_read-parts g r store k m old l) in
      let made =
        change_rfs-IsRewired g r (store_rfs m.access store) k m old is e
          (λ w. store_target g m.access store w t) in
      (made.0, same_run ∙ made.1, made.2)
]
