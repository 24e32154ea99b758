-- ===== src/ExecutionGraph/Validate.antt =====
-- src/ExecutionGraph.cpp: `validate`. The answer is whether it returns, and not aborts. That a read is the one in a
-- list of readers, and that a label is the one in the graph, is told by positions.
use rustmc.Prelude.{
  ℕ, zero, suc, ◌≡◌, sym, ap, subst, ◌∙◌, Bool, true, not, ◌&&◌, ◌||◌, Bool-cases, Bool-ext,
  Option-cases, inl, inr, List, [], ◌∷◌, Option, none, some, leb, if◌then◌else◌, arith, get_elem?,
  get_or,
}
use mathlib.Core.Option.{none-ne-some, some-injective}
use rustmc.Event.{Event, same}
use rustmc.SVal.{SVal}
use rustmc.EventLabel.{EventLabel, Role, Rfs, MemAccess, WriteKind, read, write}
use rustmc.ExecutionGraph.{
  ExecutionGraph, get_event_label, contains_pos, contains_pos_non_empty, has_event,
}
use rustmc.ExecutionGraph.Change.{rfs_in}
use rustmc.ExecutionGraph.Positions.{same_iff}
use rustmc.ExecutionGraph.Updates.{is_rmw_load, is_rmw_store}
use rustmc.ExecutionGraph.Readers.{role_of, role_at, has_store, reads_from}

-- A read is among the readers of a store, if that is a write.
unfoldable pub lists_reader : Event → Option Role → Bool
lists_reader r (some (write k m v at rs)) = has_event r rs
lists_reader r o = true

unfoldable pub are_rfs_right : ExecutionGraph → Event → Rfs → Bool
unfolding lists_reader
are_rfs_right g r [] = true
are_rfs_right g r ((w, a) ∷ rfs) =
    (contains_pos g w && lists_reader r (role_at g w)) && are_rfs_right g r rfs

unfoldable pub count_rmw_loads : ExecutionGraph → List Event → ℕ
count_rmw_loads g [] = 0
count_rmw_loads g (r ∷ rs) = elim (get_event_label g r) as (λ x. ℕ) [
  | none ↦ count_rmw_loads g rs
  | some l ↦ if is_rmw_load g l then suc (count_rmw_loads g rs) else count_rmw_loads g rs
]

unfoldable pub are_readers_right : ExecutionGraph → Event → List Event → Bool
are_readers_right g w [] = true
are_readers_right g w (r ∷ rs) =
    (contains_pos_non_empty g r && reads_from (role_at g r) w) && are_readers_right g w rs

unfoldable pub is_valid_role : ExecutionGraph → Event → Role → Bool
unfolding are_rfs_right are_readers_right count_rmw_loads
is_valid_role g e (read k m rfs) = are_rfs_right g e rfs
is_valid_role g e (write k m v at rs) =
    (not (is_rmw_store (write k m v at rs)) || leb (count_rmw_loads g rs) 1)
    && are_readers_right g e rs
is_valid_role g e role = true

unfoldable pub all_valid_in : ExecutionGraph → List EventLabel → Bool
unfolding is_valid_role
all_valid_in g [] = true
all_valid_in g (l ∷ ls) =
    is_valid_role g (EventLabel.pos l) (EventLabel.role l) && all_valid_in g ls

unfoldable pub all_valid : ExecutionGraph → List (List EventLabel) → Bool
unfolding all_valid_in
all_valid g [] = true
all_valid g (thr ∷ thrs) = all_valid_in g thr && all_valid g thrs

unfoldable pub validate : ExecutionGraph → Bool
unfolding all_valid
validate g = all_valid g g.events

-- Each label knows its position.
abbrev pub IsPlaced : ExecutionGraph → Type 0
IsPlaced g = (e : Event) (l : EventLabel) → get_event_label g e ≡ some l → EventLabel.pos l ≡ e

all_valid_in-label :
    (g : ExecutionGraph) (thr : List EventLabel) (i : ℕ) (l : EventLabel)
    → all_valid_in g thr ≡ true
    → get_elem? thr i ≡ some l
    → is_valid_role g (EventLabel.pos l) (EventLabel.role l) ≡ true
unfolding all_valid_in
all_valid_in-label g [] i l h at = absurd (none-ne-some _ at)
all_valid_in-label g (x ∷ thr) zero l h at =
    subst (λ y. is_valid_role g (EventLabel.pos y) (EventLabel.role y) ≡ true)
      (some-injective _ _ at) (ground (arith, h))
all_valid_in-label g (x ∷ thr) (suc i) l h at = all_valid_in-label g thr i l (ground (arith, h)) at

all_valid-label :
    (g : ExecutionGraph) (thrs : List (List EventLabel)) (t i : ℕ) (l : EventLabel)
    → all_valid g thrs ≡ true
    → get_elem? (get_or thrs t []) i ≡ some l
    → is_valid_role g (EventLabel.pos l) (EventLabel.role l) ≡ true
unfolding all_valid
all_valid-label g [] t i l h at = absurd (none-ne-some _ at)
all_valid-label g (thr ∷ thrs) zero i l h at = all_valid_in-label g thr i l (ground (arith, h)) at
all_valid-label g (thr ∷ thrs) (suc t) i l h at =
    all_valid-label g thrs t i l (ground (arith, h)) at

valid_role_at :
    (g : ExecutionGraph) (e : Event) (role : Role)
    → IsPlaced g
    → validate g ≡ true
    → role_at g e ≡ some role
    → is_valid_role g e role ≡ true
unfolding validate role_at get_event_label
valid_role_at g e role placed h at = elim (Option-cases (get_event_label g e)) [
  | inl n ↦ absurd (none-ne-some _ (sym (ap role_of n) ∙ at))
  | inr p ↦
      let its : EventLabel.role p.0 ≡ role = some-injective _ _ (sym (ap role_of p.1) ∙ at) in
      subst (λ u. is_valid_role g u role ≡ true) (placed e p.0 p.1)
        (subst (λ u. is_valid_role g (EventLabel.pos p.0) u ≡ true) its
          (all_valid-label g g.events e.thread e.index p.0 h p.1))
]

are_rfs_right-lists :
    (g : ExecutionGraph) (r w : Event) (rfs : Rfs)
    → are_rfs_right g r rfs ≡ true
    → has_store w rfs ≡ true
    → lists_reader r (role_at g w) ≡ true
unfolding are_rfs_right has_store
are_rfs_right-lists g r w [] h y = absurd (ground (arith, y))
are_rfs_right-lists g r w ((v, a) ∷ rfs) h y = elim (Bool-cases (same v w)) [
  | inl s ↦ subst (λ u. lists_reader r (role_at g u) ≡ true) (same_iff v w s) (ground (arith, h))
  | inr n ↦ are_rfs_right-lists g r w rfs (ground (arith, h)) (ground (arith, y, n))
]

are_readers_right-reads :
    (g : ExecutionGraph) (r w : Event) (rs : List Event)
    → are_readers_right g w rs ≡ true
    → has_event r rs ≡ true
    → reads_from (role_at g r) w ≡ true
unfolding are_readers_right has_event
are_readers_right-reads g r w [] h y = absurd (ground (arith, y))
are_readers_right-reads g r w (e ∷ rs) h y = elim (Bool-cases (same r e)) [
  | inl s ↦
      subst (λ u. reads_from (role_at g u) w ≡ true) (sym (same_iff r e s)) (ground (arith, h))
  | inr n ↦ are_readers_right-reads g r w rs (ground (arith, h)) (ground (arith, y, n))
]

reads-lists :
    (g : ExecutionGraph) (r w : Event) (role : Role)
    → is_valid_role g r role ≡ true
    → has_store w (rfs_in role) ≡ true
    → lists_reader r (role_at g w) ≡ true
unfolding is_valid_role rfs_in has_store
reads-lists g r w (read k m rfs) h y = are_rfs_right-lists g r w rfs h y
reads-lists g r w role h y = absurd (ground (arith, y))

-- When `validate` returns on a graph in which each label knows its position, then for each write of the
-- graph the reads in its list of readers are exactly those that read from it.
pub validate-readers :
    (g : ExecutionGraph) (w : Event) (k : WriteKind) (m : MemAccess) (v : SVal) (attr : ℕ)
    (rs : List Event)
    → IsPlaced g
    → validate g ≡ true
    → role_at g w ≡ some (write k m v attr rs)
    → (r : Event) → has_event r rs ≡ reads_from (role_at g r) w
unfolding is_valid_role lists_reader reads_from
validate-readers g w k m v attr rs placed h at r =
    let its = valid_role_at g w (write k m v attr rs) placed h at in
    Bool-ext _ _ (are_readers_right-reads g r w rs (ground (arith, its))) (λ y.
      elim (Option-cases (role_at g r)) [
        | inl n ↦ absurd (ground (arith, n, y))
        | inr p ↦
            subst (λ o. lists_reader r o ≡ true) at
              (reads-lists g r w p.0 (valid_role_at g r p.0 placed h p.1)
                (sym (ap (λ o. reads_from o w) p.1) ∙ y))
      ])
