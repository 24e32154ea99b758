-- ===== src/ExecutionGraph/Copy/Links.antt =====
-- src/ExecutionGraph.cpp: the labels of a copy after `copyGraphUpTo` has set their pointers.
use mathlib.Core.Option.{some-injective}
use rustmc.Prelude.{
  ℕ, zero, suc, ◌≡◌, refl, sym, ap, subst, ◌∙◌, Bool, true, false, ◌&&◌, ◌||◌, Bool-cases, inl, inr,
  List, [], ◌∷◌, Option, none, some, ◌>>=◌, arith, length, get_elem?, get_or,
}
use rustmc.Event.{Event, same}
use rustmc.EventLabel.{EventLabel, Role, Rfs, read, write, thread_finish, malloc, free}
use rustmc.ExecutionGraph.{ExecutionGraph, get_event_label, get_num_threads, contains_pos}
use rustmc.ExecutionGraph.Change.{rfs_in}
use rustmc.ExecutionGraph.Positions.{same_iff, map_option}
use rustmc.ExecutionGraph.Readers.{role_of, has_store, reads_from}
use rustmc.ExecutionGraph.Coherence.{readers_of}
use rustmc.ExecutionGraph.Addition.{bind-gives}
use rustmc.ExecutionGraph.Copy.Origin.{bare}
use rustmc.ExecutionGraph.Copy.{
  VectorClock, point_alloc, point, original, accesses_of, add_all, is_join_role, is_free_role,
  is_malloc, is_access_role, keep_rfs, relink, relink_thread, relink_threads, copy_coherence,
  copy_threads, copy_graph_up_to, is_read_role, resize_events,
}
use rustmc.ExecutionGraph.Copy.Steps.{copy_coherence-events, copy_init_rfs-events}

kept_more : (s k r c : Bool) → k ≡ (r && c) → (s ≡ true → c ≡ true) → (s || k) ≡ ((s || r) && c)
kept_more true k r c e f = sym (f refl)
kept_more false k r c e f = e

left_out : (s k r c : Bool) → k ≡ (r && c) → (s ≡ true → c ≡ false) → k ≡ ((s || r) && c)
left_out true k r c e f = ground (arith, e, f refl)
left_out false k r c e f = e

keep_rfs-has :
    (h : ExecutionGraph) (w : Event) (rfs : Rfs)
    → has_store w (keep_rfs h rfs) ≡ (has_store w rfs && contains_pos h w)
unfolding keep_rfs has_store
keep_rfs-has h w [] = refl
keep_rfs-has h w ((x, a) ∷ rfs) =
    let agree : same x w ≡ true → contains_pos h x ≡ contains_pos h w =
      λ s. ap (contains_pos h) (same_iff x w s) in
    elim (Bool-cases (contains_pos h x)) [
      | inl c ↦ rw c (kept_more (same x w) _ _ _ (keep_rfs-has h w rfs) (λ s. sym (agree s) ∙ c))
      | inr n ↦ rw n (left_out (same x w) _ _ _ (keep_rfs-has h w rfs) (λ s. sym (agree s) ∙ n))
    ]

-- What a change of the pointers keeps: the role without its pointers, and here the stores of a read.
abbrev kept : Role → Rfs × Role
kept role = (rfs_in role, bare role)

-- The last step of a change of a role.
gives-kept {ℓ} :
    {A : Type ℓ} (o : Option A) (f : A → Role) (made : Role) (rs : Rfs × Role)
    → ((a : A) → kept (f a) ≡ rs)
    → (o >>= λ a. some (f a)) ≡ some made
    → kept made ≡ rs
gives-kept o f made rs same_kept h =
    let (a, found, last) = bind-gives o (λ a. some (f a)) made h in
    ap kept (sym (some-injective _ _ last)) ∙ same_kept a

relink-kept :
    (g h : ExecutionGraph) (v : VectorClock) (e : Event) (role made : Role)
    → relink g h v e role ≡ some made
    → kept made ≡ (keep_rfs h (rfs_in role), bare role)
unfolding relink rfs_in keep_rfs bare
relink-kept g h v e (read k m rfs) made is =
    gives-kept (point_alloc h m.alloc) _ made _ (λ a. refl) is
relink-kept g h v e (write k m x at rs) made is =
    let (o, f1, r1) = bind-gives (original g e) _ made is in
    let (old, f2, r2) = bind-gives (readers_of o) _ made r1 in
    let (new, f3, r3) = bind-gives (add_all is_read_role h v old []) _ made r2 in
    gives-kept (point_alloc h m.alloc) _ made _ (λ a. refl) r3
relink-kept g h v e (thread_finish j) made is =
    gives-kept (point is_join_role h v j) _ made _ (λ a. refl) is
relink-kept g h v e (malloc x n d ms) made is =
    let (f, f0, r0) = bind-gives (point is_free_role h v d) _ made is in
    let (o, f1, r1) = bind-gives (original g e) _ made r0 in
    let (old, f2, r2) = bind-gives (accesses_of o) _ made r1 in
    gives-kept (add_all is_access_role h v old []) _ made _ (λ a. refl) r2
relink-kept g h v e (free k x a) made is =
    gives-kept (point is_malloc h v a) _ made _ (λ a. refl) is
relink-kept g h v e role made is = ap kept (sym (some-injective _ _ is))

-- A label of the relinked threads, and the label that it was.
abbrev pub Relinked : ExecutionGraph → Option EventLabel → Option EventLabel → Type 0
Relinked h old new =
    (map_option bare (role_of new) ≡ map_option bare (role_of old))
    × ((w : Event) → reads_from (role_of new) w ≡ (reads_from (role_of old) w && contains_pos h w))

Relinked-cons :
    (g h : ExecutionGraph) (v : VectorClock) (l : EventLabel) (role : Role)
    (thr rest : List EventLabel)
    → relink g h v (EventLabel.pos l) (EventLabel.role l) ≡ some role
    → ((i : ℕ) → Relinked h (get_elem? thr i) (get_elem? rest i))
    → (i : ℕ) → Relinked h (get_elem? (l ∷ thr) i) (get_elem? (record l { role = role } ∷ rest) i)
unfolding reads_from
Relinked-cons g h v l role thr rest its at zero =
    let same_kept = relink-kept g h v l.pos l.role role its in
    (
      ap (λ u. some (u.1)) same_kept,
      λ w. ap (λ u. has_store w (u.0)) same_kept ∙ keep_rfs-has h w (rfs_in l.role),
    )
Relinked-cons g h v l role thr rest its at (suc i) = at i

relink_thread-at :
    (g h : ExecutionGraph) (v : VectorClock) (thr made : List EventLabel)
    → relink_thread g h v thr ≡ some made
    → (length made ≡ length thr) × ((i : ℕ) → Relinked h (get_elem? thr i) (get_elem? made i))
unfolding relink_thread reads_from
relink_thread-at g h v [] made is =
    subst (λ u. (length u ≡ 0) × ((i : ℕ) → Relinked h none (get_elem? u i)))
      (some-injective _ _ is) (refl, λ i. (refl, λ w. refl))
relink_thread-at g h v (l ∷ thr) made is =
    let (role, its, r0) =
      bind-gives (relink g h v (EventLabel.pos l) (EventLabel.role l)) _ made is in
    let (rest, ok, r1) = bind-gives (relink_thread g h v thr) _ made r0 in
    let (len, at) = relink_thread-at g h v thr rest ok in
    subst
      (λ u.
        (length u ≡ suc (length thr))
        × ((i : ℕ) → Relinked h (get_elem? (l ∷ thr) i) (get_elem? u i)))
      (some-injective _ _ r1) (ap suc len, Relinked-cons g h v l role thr rest its at)

abbrev AllRelinked : ExecutionGraph → List (List EventLabel) → List (List EventLabel) → Type 0
AllRelinked h thrs made =
    (t : ℕ)
    → (length (get_or made t []) ≡ length (get_or thrs t []))
      × ((i : ℕ) → Relinked h (get_elem? (get_or thrs t []) i) (get_elem? (get_or made t []) i))

AllRelinked-cons :
    (h : ExecutionGraph) (thr t : List EventLabel) (thrs rest : List (List EventLabel))
    → (length t ≡ length thr) × ((i : ℕ) → Relinked h (get_elem? thr i) (get_elem? t i))
    → AllRelinked h thrs rest
    → AllRelinked h (thr ∷ thrs) (t ∷ rest)
AllRelinked-cons h thr t thrs rest here at zero = here
AllRelinked-cons h thr t thrs rest here at (suc j) = at j

relink_threads-at :
    (g h : ExecutionGraph) (v : VectorClock) (thrs made : List (List EventLabel))
    → relink_threads g h v thrs ≡ some made
    → (length made ≡ length thrs) × AllRelinked h thrs made
unfolding relink_threads reads_from
relink_threads-at g h v [] made is =
    subst (λ u. (length u ≡ 0) × AllRelinked h [] u) (some-injective _ _ is)
      (refl, λ t. (refl, λ i. (refl, λ w. refl)))
relink_threads-at g h v (thr ∷ thrs) made is =
    let (t, its, r0) = bind-gives (relink_thread g h v thr) _ made is in
    let (rest, ok, r1) = bind-gives (relink_threads g h v thrs) _ made r0 in
    let (len, at) = relink_threads-at g h v thrs rest ok in
    subst (λ u. (length u ≡ suc (length thrs)) × AllRelinked h (thr ∷ thrs) u)
      (some-injective _ _ r1)
      (ap suc len, AllRelinked-cons h thr t thrs rest (relink_thread-at g h v thr t its) at)

-- The labels of a copy, and those before their pointers were set.
pub copy_graph_up_to-Relinked :
    (g : ExecutionGraph) (v : VectorClock) (o k : ExecutionGraph)
    → copy_graph_up_to g v o ≡ some k
    → (h : ExecutionGraph) × (copy_threads g v (get_num_threads g) 0 (record o {
      timestamp = g.timestamp;
      events = resize_events (get_num_threads g) o.events;
    })
        ≡ some h)
      × ((w : Event) → contains_pos k w ≡ contains_pos h w)
      × ((e : Event) → Relinked h (get_event_label h e) (get_event_label k e))
unfolding copy_graph_up_to get_event_label contains_pos
copy_graph_up_to-Relinked g v o k is =
    let (h, f0, r0) =
      bind-gives
        (copy_threads g v (get_num_threads g) 0 (record o {
          timestamp = g.timestamp;
          events = resize_events (get_num_threads g) o.events;
        }))
        _ k is in
    let (thrs, f1, r1) = bind-gives (relink_threads g h v h.events) _ k r0 in
    let (j, f2, r2) =
      bind-gives (copy_coherence v g.coherence (record h { events = thrs })) _ k r1 in
    let evs : ExecutionGraph.events k ≡ thrs =
      copy_init_rfs-events g v g.coherence j k r2
      ∙ copy_coherence-events v g.coherence (record h { events = thrs }) j f2 in
    let (len, at) = relink_threads-at g h v h.events thrs f1 in
    (
      h,
      f0,
      λ w.
          rw
            (
              ap (λ u. length u) evs ∙ len,
              ap (λ u. length (get_or u w.thread [])) evs ∙ (at w.thread).0,
            )
            refl,
      λ e.
          subst
            (λ u.
              Relinked h (get_elem? (get_or h.events e.thread []) e.index)
                (get_elem? (get_or u e.thread []) e.index))
            (sym evs) ((at e.thread).1 e.index),
    )
