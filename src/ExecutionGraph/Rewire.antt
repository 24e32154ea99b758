-- ===== src/ExecutionGraph/Rewire.antt =====
-- src/ExecutionGraph.cpp: `changeRf` keeps the lists of readers right.
use mathlib.Core.Option.{none-ne-some, some-injective}
use rustmc.Prelude.{
  ◌≡◌, refl, sym, ap, subst, ◌∙◌, true, false, not, ◌&&◌, ◌||◌, Bool-cases, Option-cases, inl, inr,
  List, [], ◌∷◌, some, if◌then◌else◌, arith,
}
use rustmc.Event.{Event, same}
use rustmc.MemAccess.{AAccess}
use rustmc.EventLabel.{EventLabel, ReadKind, Rfs, MemAccess, read}
use rustmc.ExecutionGraph.{ExecutionGraph, get_event_label, has_event}
use rustmc.ExecutionGraph.Change.{
  set_rf, change_role, rfs_in, mem_in, detach, detach_all, attach_all, stores_of, change_parts,
  change_rfs,
}
use rustmc.ExecutionGraph.Positions.{same_iff, same_refl}
use rustmc.ExecutionGraph.Readers.{
  role_at, role_at-change, has_store, reads_from, access_in, is_listed, is_target, HasReaders,
  Keeps, set_rf-listed, set_rf-target, set_rf-access,
}
use rustmc.ExecutionGraph.Attach.{Keeps-refl, detach-IsDetached, attach-IsAttached}

Keeps-trans : (g h k : ExecutionGraph) → Keeps g h → Keeps h k → Keeps g k
Keeps-trans g h k p q e = ((q e).0 ∙ (p e).0, λ w. (q e).1 w ∙ (p e).1 w, (q e).2 ∙ (p e).2)

detach_all_lem :
    (g : ExecutionGraph) (a : AAccess) (r : Event) (rfs : Rfs)
    → access_in (role_at g r) ≡ some a
    → Keeps g (detach_all g a r rfs)
      × ((q w : Event)
          → is_listed (detach_all g a r rfs) q w
            ≡ (is_listed g q w && not (same q r && has_store w rfs)))
unfolding detach_all has_store
detach_all_lem g a r [] h = (Keeps-refl g, λ q w. ground arith)
detach_all_lem g a r ((x, b) ∷ rfs) h =
    let (kept, edits) = detach-IsDetached g a r x h in
    let (rest, listed) = detach_all_lem (detach g a r x) a r rfs ((kept r).0 ∙ h) in
    (
      Keeps-trans g (detach g a r x) (detach_all (detach g a r x) a r rfs) kept rest,
      λ q w. ground (arith, listed q w, edits q w),
    )

pub detach_all-Keeps :
    (g : ExecutionGraph) (a : AAccess) (r : Event) (rfs : Rfs)
    → access_in (role_at g r) ≡ some a
    → Keeps g (detach_all g a r rfs)
detach_all-Keeps g a r rfs h = (detach_all_lem g a r rfs h).0

abbrev IsDistinct : List Event → Type 0
IsDistinct [] = Unit {0}
IsDistinct (w ∷ ws) = (has_event w ws ≡ false) × IsDistinct ws

has_event_same : (x w : Event) (es : List Event) → same x w ≡ true → has_event x es ≡ has_event w es
has_event_same x w es h = ap (λ u. has_event u es) (same_iff x w h)

pub stores_of-has :
    (w : Event) (seen : List Event) (rfs : Rfs)
    → has_event w (stores_of seen rfs) ≡ (has_store w rfs && not (has_event w seen))
unfolding has_event stores_of has_store
stores_of-has w seen [] = refl
stores_of-has w seen ((x, b) ∷ rfs) =
    ground
      (arith, stores_of-has w seen rfs, stores_of-has w (x ∷ seen) rfs, has_event_same x w seen)

stores_of-IsDistinct : (seen : List Event) (rfs : Rfs) → IsDistinct (stores_of seen rfs)
unfolding stores_of has_event
stores_of-IsDistinct seen [] = tt
stores_of-IsDistinct seen ((x, b) ∷ rfs) = elim (Bool-cases (has_event x seen)) [
  | inl y ↦ rw y (stores_of-IsDistinct seen rfs)
  | inr n ↦ rw n (
    ground (arith, stores_of-has x (x ∷ seen) rfs, same_refl x),
    stores_of-IsDistinct (x ∷ seen) rfs,
  )
]

abbrev Targets : ExecutionGraph → List Event → Type 0
Targets g ws = (w : Event) → has_event w ws ≡ true → is_target (role_at g w) w ≡ true

attach_all_lem :
    (g : ExecutionGraph) (a : AAccess) (r : Event) (ws : List Event)
    → access_in (role_at g r) ≡ some a
    → Targets g ws
    → IsDistinct ws
    → ((w : Event) → has_event w ws ≡ true → is_listed g r w ≡ false)
    → (h : ExecutionGraph) × (attach_all g a r ws ≡ some h)
      × Keeps g h
      × ((q w : Event) → is_listed h q w ≡ (is_listed g q w || (same q r && has_event w ws)))
unfolding attach_all has_event
attach_all_lem g a r [] h t d n = (g, refl, Keeps-refl g, λ q w. ground arith)
attach_all_lem g a r (x ∷ ws) h t d n =
    let (g1, run, kept, edits) =
      attach-IsAttached g a r x h (t x (ground (arith, same_refl x)))
        (n x (ground (arith, same_refl x))) in
    let (g2, runs, rest, listed) =
      attach_all_lem g1 a r ws ((kept r).0 ∙ h) (λ w k. (kept w).2 ∙ t w (ground (arith, k))) d.1
        (λ w k. ground (arith, edits r w, n w, d.0, k, has_event_same x w ws)) in
    (g2, rw run runs, Keeps-trans g g1 g2 kept rest, λ q w. ground (arith, listed q w, edits q w))

reads_from-set_rf :
    (g : ExecutionGraph) (r : Event) (rfs : Rfs) (k : ReadKind) (m : MemAccess) (old : Rfs)
    → role_at g r ≡ some (read k m old)
    → (q w : Event)
    → reads_from (role_at (change_role (set_rf rfs) g r) q) w
      ≡ (if same q r then has_store w rfs else reads_from (role_at g q) w)
unfolding reads_from set_rf rfs_in
reads_from-set_rf g r rfs k m old e q w = elim (Bool-cases (same r q)) [
  | inl y ↦
      let here : role_at g q ≡ some (read k m old) =
        subst (λ u. role_at g u ≡ some (read k m old)) (same_iff r q y) e in
      let there : role_at (change_role (set_rf rfs) g r) q ≡ some (read k m rfs) =
        role_at-change (set_rf rfs) g r q ∙ rw (y, here) refl in
      rw there (ground (arith, y))
  | inr n ↦
      let there : role_at (change_role (set_rf rfs) g r) q ≡ role_at g q =
        role_at-change (set_rf rfs) g r q ∙ rw n refl in
      rw there (ground (arith, n))
]

-- The changed graph has the right readers, and the read reads from the given stores.
abbrev pub IsRewired : ExecutionGraph → Event → Rfs → ExecutionGraph → Type 0
IsRewired g r rfs h =
    HasReaders h
    × ((q w : Event)
        → reads_from (role_at h q) w
          ≡ (if same q r then has_store w rfs else reads_from (role_at g q) w))

change_parts_lem :
    (g : ExecutionGraph) (r : Event) (rfs : Rfs) (k : ReadKind) (m : MemAccess) (old : Rfs)
    → HasReaders g
    → role_at g r ≡ some (read k m old)
    → ((w : Event) → has_store w rfs ≡ true → is_target (role_at g w) w ≡ true)
    → (h : ExecutionGraph) × (change_parts g r rfs (read k m old) ≡ some h) × IsRewired g r rfs h
unfolding change_parts access_in mem_in reads_from rfs_in has_event
change_parts_lem g r rfs k m old is e t =
    let g1 = change_role (set_rf rfs) g r in
    let a = m.access in
    let has_access : access_in (role_at g1 r) ≡ some a = set_rf-access rfs g r r ∙ rw e refl in
    let reads = reads_from-set_rf g r rfs k m old e in
    let old_stores : (w : Event) → reads_from (role_at g r) w ≡ has_store w old = λ w. rw e refl in
    let (kept, listed) = detach_all_lem g1 a r old has_access in
    let (h, run, rest, added) =
      attach_all_lem (detach_all g1 a r old) a r (stores_of [] rfs) ((kept r).0 ∙ has_access)
        (λ w y.
          (kept w).2 ∙ set_rf-target rfs g r w w ∙ t w (ground (arith, y, stores_of-has w [] rfs)))
        (stores_of-IsDistinct [] rfs)
        (λ w y.
          ground
            (arith, listed r w, set_rf-listed rfs g r r w, is r w, old_stores w, same_refl r)) in
    let stores : (q w : Event)
        → reads_from (role_at h q) w
          ≡ (if same q r then has_store w rfs else reads_from (role_at g q) w) =
      λ q w. (rest q).1 w ∙ (kept q).1 w ∙ reads q w in
    let before : (q w : Event) → same q r ≡ true → is_listed g q w ≡ has_store w old =
      λ q w y. is q w ∙ ap (λ u. reads_from (role_at g u) w) (same_iff q r y) ∙ old_stores w in
    (
      h,
      run,
      (
        λ q w. ground (
          arith,
          added q w,
          listed q w,
          set_rf-listed rfs g r q w,
          is q w,
          before q w,
          stores q w,
          stores_of-has w [] rfs,
        ),
        stores,
      ),
    )

-- When the graph lists as the readers of each store just the reads that read from it, a position is of a
-- read, and each given store is a write of the graph or the initializer, then `changeRf` ends without an
-- abort, the read reads from the given stores and no others, what the other reads read from is as before,
-- and the graph lists the right readers again.
pub change_rfs-IsRewired :
    (g : ExecutionGraph) (r : Event) (rfs : Rfs) (k : ReadKind) (m : MemAccess) (old : Rfs)
    → HasReaders g
    → role_at g r ≡ some (read k m old)
    → ((w : Event) → has_store w rfs ≡ true → is_target (role_at g w) w ≡ true)
    → (h : ExecutionGraph) × (change_rfs g r rfs ≡ some h) × IsRewired g r rfs h
unfolding change_rfs role_at
change_rfs-IsRewired g r rfs k m old is e t = elim (Option-cases (get_event_label g r)) [
  | inl n ↦ absurd (none-ne-some _ (sym (rw n refl) ∙ e))
  | inr p ↦
      let its : EventLabel.role p.0 ≡ read k m old = some-injective _ _ (sym (rw p.1 refl) ∙ e) in
      let made = change_parts_lem g r rfs k m old is e t in (made.0, rw (p.1, its) made.1, made.2)
]
