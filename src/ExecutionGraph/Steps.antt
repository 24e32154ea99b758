-- ===== src/ExecutionGraph/Steps.antt =====
-- src/ExecutionGraph.cpp: what a change of a list of readers leaves alone.
use rustmc.Prelude.{
  ℕ, ◌≡◌, refl, sym, ap, subst, ◌∙◌, true, ◌&&◌, Bool-cases, inl, inr, List, Option, none, some,
  ◌==◌, if◌then◌else◌, arith,
}
use rustmc.Event.{Event, same, is_initializer}
use rustmc.SAddr.{align}
use rustmc.MemAccess.{AAccess}
use rustmc.SVal.{SVal}
use rustmc.EventLabel.{WriteKind, Role, MemAccess, write}
use rustmc.ExecutionGraph.{
  ExecutionGraph, LocMap, get_event_label, change_label, at_loc, or_empty, put_loc, has_event,
}
use rustmc.ExecutionGraph.Change.{
  change_readers, change_role, mem_in, add_init_rf, remove_init_rf, detach_from, attach_to,
}
use rustmc.ExecutionGraph.Positions.{map_option, same_iff, at_loc-put_loc}
use rustmc.ExecutionGraph.Readers.{
  role_at, role_at-change, reads_from, access_in, is_init_reader, listed_in, listed_at, is_listed,
  is_target, Kept, Keeps,
}

pub kept_by_readers :
    (f : List Event → List Event) (q : Event) (role : Role)
    → (access_in (some (change_readers f role)) ≡ access_in (some role))
      × ((w : Event) → reads_from (some (change_readers f role)) w ≡ reads_from (some role) w)
      × (is_target (some (change_readers f role)) q ≡ is_target (some role) q)
unfolding access_in mem_in reads_from is_target change_readers
kept_by_readers f q (write k m v at rs) = (refl, λ w. refl, refl)
kept_by_readers f q role = (refl, λ w. refl, refl)

-- A role that is no write.
abbrev pub IsOther : Role → Type 0
IsOther role =
    ((g : ExecutionGraph) (a : AAccess) (r w : Event)
      → detach_from g a r w role ≡ (if is_initializer w then remove_init_rf g a r else g))
    × ((g : ExecutionGraph) (a : AAccess) (r w : Event)
        → attach_to g a r w role ≡ (if is_initializer w then add_init_rf g a r else none))
    × ((n : LocMap) (a : Option AAccess) (r w : Event)
        → listed_in n a r w role ≡ (is_initializer w && is_init_reader n a r))
    × ((w : Event) → is_target (some role) w ≡ is_initializer w)

pub data WriteOrOther : Role → Type 0 where
  a_write :
      (k : WriteKind) (m : MemAccess) (v : SVal) (at : ℕ) (rs : List Event)
      → WriteOrOther (write k m v at rs)
  an_other : {role : Role} → IsOther role → WriteOrOther role

pub write_or_other : (role : Role) → WriteOrOther role
unfolding detach_from attach_to listed_in is_target
write_or_other (write k m v at rs) = a_write k m v at rs
write_or_other role = an_other (λ g a r w. refl, λ g a r w. refl, λ n a r w. refl, λ w. refl)

pub role_at-init_rfs :
    (g : ExecutionGraph) (m : LocMap) (q : Event)
    → role_at (record g { init_rfs = m }) q ≡ role_at g q
unfolding role_at get_event_label
role_at-init_rfs g m q = refl

pub Kept-option :
    (f : List Event → List Event) (q : Event) (o : Option Role)
    → Kept (map_option (change_readers f) o) o q
Kept-option f q none = (refl, λ w. refl, refl)
Kept-option f q (some role) = kept_by_readers f q role

-- The two changes of readers.
pub change_readers-Keeps :
    (f : List Event → List Event) (g : ExecutionGraph) (e : Event)
    → Keeps g (change_role (change_readers f) g e)
change_readers-Keeps f g e q = elim (Bool-cases (same e q)) [
  | inl y ↦
      subst (λ o. Kept o (role_at g q) q)
        (sym (role_at-change (change_readers f) g e q ∙ rw y refl)) (Kept-option f q (role_at g q))
  | inr n ↦
      subst (λ o. Kept o (role_at g q) q)
        (sym (role_at-change (change_readers f) g e q ∙ rw n refl)) (refl, λ w. refl, refl)
]

pub init_rfs-Keeps : (g : ExecutionGraph) (m : LocMap) → Keeps g (record g { init_rfs = m })
init_rfs-Keeps g m q =
    subst (λ o. Kept o (role_at g q) q) (sym (role_at-init_rfs g m q)) (refl, λ w. refl, refl)

pub init_rfs-change :
    (f : Role → Role) (g : ExecutionGraph) (e : Event)
    → ExecutionGraph.init_rfs (change_role f g e) ≡ g.init_rfs
unfolding change_role change_label
init_rfs-change f g e = refl

pub listed_same :
    (g h : ExecutionGraph) (r w : Event)
    → ExecutionGraph.init_rfs h ≡ ExecutionGraph.init_rfs g
    → access_in (role_at h r) ≡ access_in (role_at g r)
    → role_at h w ≡ role_at g w
    → is_listed h r w ≡ is_listed g r w
unfolding is_listed
listed_same g h r w i a p = cc

-- The readers of a write change, and no others.
pub change_readers-listed :
    (f : List Event → List Event) (g : ExecutionGraph) (e : Event) (k : WriteKind) (m : MemAccess)
    (v : SVal) (at : ℕ) (rs : List Event)
    → role_at g e ≡ some (write k m v at rs)
    → (r w : Event)
    → is_listed (change_role (change_readers f) g e) r w
      ≡ (if same e w then has_event r (f rs) else is_listed g r w)
unfolding is_listed listed_at listed_in change_readers
change_readers-listed f g e k m v at rs h r w = elim (Bool-cases (same e w)) [
  | inl y ↦
      let here : role_at g w ≡ some (write k m v at rs) =
        subst (λ q. role_at g q ≡ some (write k m v at rs)) (same_iff e w y) h in
      let there : role_at (change_role (change_readers f) g e) w ≡ some (write k m v at (f rs)) =
        role_at-change (change_readers f) g e w ∙ rw (y, here) refl in
      rw (there, y) refl
  | inr n ↦
      listed_same g (change_role (change_readers f) g e) r w
        (init_rfs-change (change_readers f) g e) (change_readers-Keeps f g e r).0
        (role_at-change (change_readers f) g e w ∙ rw n refl)
      ∙ rw n refl
]

pub init_same : (x w : Event) → is_initializer x ≡ true → is_initializer w ≡ true → same x w ≡ true
init_same x w h k = ground (arith, h, k)

pub listed_init :
    (g : ExecutionGraph) (r w : Event) (role : Role) (b : AAccess)
    → is_initializer w ≡ true
    → role_at g w ≡ some role
    → IsOther role
    → access_in (role_at g r) ≡ some b
    → is_listed g r w ≡ has_event r (or_empty (at_loc g.init_rfs (align (AAccess.addr b))))
unfolding is_listed is_init_reader listed_at
listed_init g r w role b i e is h =
    let here : is_listed g r w ≡ listed_in g.init_rfs (some b) r w role = cc (e, h) in
    here ∙ is.2 g.init_rfs (some b) r w ∙ rw i refl

-- A change of the readers of an initial value concerns the reads of its word.
pub init_rfs-listed :
    (g : ExecutionGraph) (a : AAccess) (fs : List Event) (r w : Event) (role : Role) (b : AAccess)
    → is_initializer w ≡ true
    → role_at g w ≡ some role
    → IsOther role
    → access_in (role_at g r) ≡ some b
    → is_listed (record g { init_rfs = put_loc g.init_rfs (align (AAccess.addr a)) fs }) r w ≡ (
        if align (AAccess.addr a) == align (AAccess.addr b)
        then has_event r fs
        else is_listed g r w)
init_rfs-listed g a fs r w role b i e is h =
    let m = put_loc g.init_rfs (align (AAccess.addr a)) fs in
    listed_init (record g { init_rfs = m }) r w role b i (role_at-init_rfs g m w ∙ e) is
      (ap access_in (role_at-init_rfs g m r) ∙ h)
    ∙ ap (has_event r)
        (at_loc-put_loc g.init_rfs (align (AAccess.addr a)) (align (AAccess.addr b)) fs)
    ∙ ground (arith, listed_init g r w role b i e is h)
