-- ===== src/ExecutionGraph/Exclusive.antt =====
-- src/ExecutionGraph.cpp: the walks over all labels against the lists of readers.
use mathlib.Core.Path.{fun_ext}
use rustmc.ExecutionGraph.Updates.{is_rmw_load}
use mathlib.Core.Option.{none-ne-some, some-injective}
use rustmc.Prelude.{
  ℕ, zero, suc, ◌≡◌, refl, sym, ap, subst, ◌∙◌, Bool, true, false, ◌&&◌, ◌||◌, Bool-cases, Bool-ext,
  inl, inr, List, [], ◌∷◌, Option, none, some, ◌==◌, arith, get_elem?, get_or,
}
use rustmc.Event.{Event, same}
use rustmc.SAddr.{SAddr}
use rustmc.SVal.{SVal}
use rustmc.View.{View}
use rustmc.EventLabel.{EventLabel, Role, Rfs, MemAccess, WriteKind, read, write}
use rustmc.ExecutionGraph.{ExecutionGraph, get_event_label, has_event}
use rustmc.ExecutionGraph.Change.{rfs_in}
use rustmc.ExecutionGraph.Searches.{addr_of}
use rustmc.ExecutionGraph.Positions.{same_iff, same_refl}
use rustmc.ExecutionGraph.Readers.{
  role_at, has_store, reads_from, is_listed, listed_at, listed_in, HasReaders,
}
use rustmc.ExecutionGraph.Scans.{
  any_in, any_label, reads_store, reads_at, is_exclusive, is_settled,
  is_store_read_by_exclusive_read, is_store_read_by_settled_rmw,
}

-- A label of the graph passes a test.
abbrev pub Found : (EventLabel → Bool) → ExecutionGraph → Type 0
Found p g = (e : Event) × (l : EventLabel) × (get_event_label g e ≡ some l) × (p l ≡ true)

any_in-found :
    (p : EventLabel → Bool) (thr : List EventLabel)
    → any_in p thr ≡ true
    → (i : ℕ) × (l : EventLabel) × (get_elem? thr i ≡ some l) × (p l ≡ true)
unfolding any_in
any_in-found p [] h = absurd (ground (arith, h))
any_in-found p (x ∷ thr) h = elim (Bool-cases (p x)) [
  | inl y ↦ (0, x, refl, y)
  | inr n ↦ let (i, l, at, y) = any_in-found p thr (ground (arith, h, n)) in (suc i, l, at, y)
]

any_in-get_elem? :
    (p : EventLabel → Bool) (thr : List EventLabel) (i : ℕ) (l : EventLabel)
    → get_elem? thr i ≡ some l
    → p l ≡ true
    → any_in p thr ≡ true
unfolding any_in
any_in-get_elem? p [] i l at y = absurd (none-ne-some _ at)
any_in-get_elem? p (x ∷ thr) zero l at y =
    let here : p x ≡ true = ap p (some-injective _ _ at) ∙ y in ground (arith, here)
any_in-get_elem? p (x ∷ thr) (suc i) l at y = ground (arith, any_in-get_elem? p thr i l at y)

any_label-found :
    (p : EventLabel → Bool) (thrs : List (List EventLabel))
    → any_label p thrs ≡ true
    → (t i : ℕ) × (l : EventLabel) × (get_elem? (get_or thrs t []) i ≡ some l) × (p l ≡ true)
unfolding any_label
any_label-found p [] h = absurd (ground (arith, h))
any_label-found p (thr ∷ thrs) h = elim (Bool-cases (any_in p thr)) [
  | inl y ↦ let (i, l, at, z) = any_in-found p thr y in (0, i, l, at, z)
  | inr n ↦
      let (t, i, l, at, z) = any_label-found p thrs (ground (arith, h, n)) in (suc t, i, l, at, z)
]

any_label-get_or :
    (p : EventLabel → Bool) (thrs : List (List EventLabel)) (t i : ℕ) (l : EventLabel)
    → get_elem? (get_or thrs t []) i ≡ some l
    → p l ≡ true
    → any_label p thrs ≡ true
unfolding any_label
any_label-get_or p [] t i l at y = absurd (none-ne-some _ at)
any_label-get_or p (thr ∷ thrs) zero i l at y = ground (arith, any_in-get_elem? p thr i l at y)
any_label-get_or p (thr ∷ thrs) (suc t) i l at y =
    ground (arith, any_label-get_or p thrs t i l at y)

reads_store-has_store :
    (w : Event) (b : Bool) (rfs : Rfs) → reads_store w b rfs ≡ (has_store w rfs && b)
unfolding reads_store has_store
reads_store-has_store w b [] = refl
reads_store-has_store w b ((v, a) ∷ rfs) = ground (arith, reads_store-has_store w b rfs)

-- The same questions, asked of a list of readers.
label_passes : (EventLabel → Bool) → Option EventLabel → Bool
label_passes p none = false
label_passes p (some l) = p l

pub any_reader : (EventLabel → Bool) → ExecutionGraph → List Event → Bool
unfolding label_passes
any_reader p g [] = false
any_reader p g (r ∷ rs) = label_passes p (get_event_label g r) || any_reader p g rs

label_passes-found :
    (p : EventLabel → Bool) (o : Option EventLabel)
    → label_passes p o ≡ true
    → (l : EventLabel) × (o ≡ some l) × (p l ≡ true)
unfolding label_passes
label_passes-found p none h = absurd (ground (arith, h))
label_passes-found p (some l) h = (l, refl, h)

any_reader-found :
    (p : EventLabel → Bool) (g : ExecutionGraph) (rs : List Event)
    → any_reader p g rs ≡ true
    → (r : Event) × (l : EventLabel) × (has_event r rs ≡ true)
      × (get_event_label g r ≡ some l)
      × (p l ≡ true)
unfolding any_reader label_passes has_event
any_reader-found p g [] h = absurd (ground (arith, h))
any_reader-found p g (r ∷ rs) h = elim (Bool-cases (label_passes p (get_event_label g r))) [
  | inl y ↦
      let (l, at, z) = label_passes-found p (get_event_label g r) y in
      (r, l, ground (arith, same_refl r), at, z)
  | inr n ↦
      let (e, l, has, at, y) = any_reader-found p g rs (ground (arith, h, n)) in
      (e, l, ground (arith, has), at, y)
]

any_reader-has :
    (p : EventLabel → Bool) (g : ExecutionGraph) (rs : List Event) (r : Event) (l : EventLabel)
    → has_event r rs ≡ true
    → get_event_label g r ≡ some l
    → p l ≡ true
    → any_reader p g rs ≡ true
unfolding any_reader label_passes has_event
any_reader-has p g [] r l has at y = absurd (ground (arith, has))
any_reader-has p g (e ∷ rs) r l has at y = elim (Bool-cases (same r e)) [
  | inl s ↦
      let here : label_passes p (get_event_label g e) ≡ true =
        subst (λ u. label_passes p (get_event_label g u) ≡ true) (same_iff r e s) (rw at y) in
      ground (arith, here)
  | inr n ↦ ground (arith, any_reader-has p g rs r l (ground (arith, has, n)) at y)
]

-- In a graph with the right readers, a walk over the labels that read from a write finds what a walk over the
-- write's readers finds.
pub any_label-any_reader :
    (p : EventLabel → Bool) (g : ExecutionGraph) (w : Event) (k : WriteKind) (m : MemAccess)
    (v : SVal) (attr : ℕ) (rs : List Event)
    → HasReaders g
    → role_at g w ≡ some (write k m v attr rs)
    → any_label (λ l. has_store w (rfs_in (EventLabel.role l)) && p l) g.events ≡ any_reader p g rs
unfolding is_listed listed_at listed_in role_at reads_from get_event_label
any_label-any_reader p g w k m v attr rs is e =
    let readers : (r : Event) → has_event r rs ≡ reads_from (role_at g r) w =
      λ r. sym (rw e refl) ∙ is r w in
    Bool-ext _ _
      (λ h.
        let (t, i, l, at, y) =
          any_label-found (λ l. has_store w (rfs_in (EventLabel.role l)) && p l) g.events h in
        let r : Event = record { thread = t; index = i } in
        let has : has_event r rs ≡ true = readers r ∙ rw at (ground (arith, y)) in
        any_reader-has p g rs r l has at (ground (arith, y)))
      (λ h.
        let (r, l, has, at, y) = any_reader-found p g rs h in
        let from : has_store w (rfs_in (EventLabel.role l)) ≡ true =
          sym (readers r ∙ rw at refl) ∙ has in
        any_label-get_or (λ l. has_store w (rfs_in (EventLabel.role l)) && p l) g.events r.thread
          r.index l at (ground (arith, from, y)))

-- What is left to ask of a read that reads from the store.
pub reads_addr : SAddr → Role → Bool
reads_addr x (read k m rfs) = addr_of m == x
reads_addr x role = false

pub is_exclusive_at : ExecutionGraph → SAddr → EventLabel → Bool
unfolding reads_addr
is_exclusive_at g x l = is_rmw_load g l && reads_addr x l.role

reads_at-reads_addr :
    (w : Event) (x : SAddr) (role : Role)
    → reads_at w x role ≡ (has_store w (rfs_in role) && reads_addr x role)
unfolding reads_at reads_addr rfs_in has_store
reads_at-reads_addr w x (read k m rfs) = reads_store-has_store w (addr_of m == x) rfs
reads_at-reads_addr w x role = refl

is_exclusive-at :
    (g : ExecutionGraph) (w : Event) (x : SAddr) (l : EventLabel)
    → is_exclusive g w x l ≡ (has_store w (rfs_in l.role) && is_exclusive_at g x l)
unfolding is_exclusive is_exclusive_at
is_exclusive-at g w x l = ground (arith, reads_at-reads_addr w x l.role)

-- In a graph that lists the right readers, `isStoreReadByExclusiveRead` and `isStoreReadBySettledRMW`, which
-- walk over all labels, answer for a write of the graph whether there is such a read among its readers.
pub is_store_read-readers :
    (g : ExecutionGraph) (w : Event) (k : WriteKind) (m : MemAccess) (v : SVal) (attr : ℕ)
    (rs : List Event)
    → HasReaders g
    → role_at g w ≡ some (write k m v attr rs)
    → (x : SAddr)
    → (is_store_read_by_exclusive_read g w x ≡ any_reader (is_exclusive_at g x) g rs)
      × ((before : View)
          → is_store_read_by_settled_rmw g w x before
            ≡ any_reader (λ l. is_exclusive_at g x l && is_settled g before l) g rs)
unfolding is_store_read_by_exclusive_read is_store_read_by_settled_rmw
is_store_read-readers g w k m v attr rs is e x = (
  ap (λ p. any_label p g.events) (fun_ext (is_exclusive-at g w x))
      ∙ any_label-any_reader (is_exclusive_at g x) g w k m v attr rs is e,
  λ before.
      ap (λ p. any_label p g.events) (fun_ext (λ l. ground (arith, is_exclusive-at g w x l)))
      ∙ any_label-any_reader (λ l. is_exclusive_at g x l && is_settled g before l) g w k m v attr rs
          is e,
)
