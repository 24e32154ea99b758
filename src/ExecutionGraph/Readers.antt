-- ===== src/ExecutionGraph/Readers.antt =====
-- src/ExecutionGraph.cpp: the lists of readers and what each read reads from.
use rustmc.Prelude.{
  ◌≡◌, refl, ap, ◌∙◌, Bool, true, false, ◌&&◌, ◌||◌, [], ◌∷◌, Option, none, some, if◌then◌else◌,
  arith,
}
use rustmc.Event.{Event, same, is_initializer}
use rustmc.SAddr.{align}
use rustmc.MemAccess.{AAccess}
use rustmc.EventLabel.{EventLabel, Role, Rfs, MemAccess, read, write}
use rustmc.ExecutionGraph.{
  ExecutionGraph, LocMap, get_event_label, change_label, at_loc, or_empty, has_event,
}
use rustmc.ExecutionGraph.Change.{set_rf, change_role, rfs_in, mem_in}
use rustmc.ExecutionGraph.Positions.{map_option, get-change}

abbrev pub role_of : Option EventLabel → Option Role
role_of none = none
role_of (some l) = some l.role

-- The role of the label at a position.
unfoldable pub role_at : ExecutionGraph → Event → Option Role
role_at g e = role_of (get_event_label g e)

pub role_at-change :
    (f : Role → Role) (g : ExecutionGraph) (e q : Event)
    → role_at (change_role f g e) q ≡ (if same e q then map_option f (role_at g q) else role_at g q)
unfolding role_at change_role
role_at-change f g e q = ground (arith, get-change (λ l. record l { role = f l.role }) g e q)

unfoldable pub has_store : Event → Rfs → Bool
has_store w [] = false
has_store w ((v, a) ∷ rfs) = same v w || has_store w rfs

-- A read reads from a store.
unfoldable pub reads_from : Option Role → Event → Bool
unfolding has_store rfs_in
reads_from none w = false
reads_from (some role) w = has_store w (rfs_in role)

unfoldable pub access_in : Option Role → Option AAccess
unfolding mem_in
access_in none = none
access_in (some role) = elim (mem_in role) as (λ x. Option AAccess) [
  | none ↦ none
  | some m ↦ some (MemAccess.access m)
]

-- The readers of the initial value of an access.
unfoldable pub is_init_reader : LocMap → Option AAccess → Event → Bool
is_init_reader m none r = false
is_init_reader m (some a) r = has_event r (or_empty (at_loc m (align (AAccess.addr a))))

-- A read is in the list of readers of a store, which has the role.
unfoldable pub listed_in : LocMap → Option AAccess → Event → Event → Role → Bool
unfolding is_init_reader
listed_in m a r w (write k n v at rs) = has_event r rs
listed_in m a r w role = is_initializer w && is_init_reader m a r

unfoldable pub listed_at : LocMap → Option AAccess → Event → Event → Option Role → Bool
unfolding listed_in
listed_at m a r w none = false
listed_at m a r w (some role) = listed_in m a r w role

unfoldable pub is_listed : ExecutionGraph → Event → Event → Bool
unfolding listed_at access_in
is_listed g r w = listed_at g.init_rfs (access_in (role_at g r)) r w (role_at g w)

-- The readers that the graph lists are those that read from the store.
abbrev pub HasReaders : ExecutionGraph → Type 0
HasReaders g = (r w : Event) → is_listed g r w ≡ reads_from (role_at g r) w

-- The store of a read: a write, or the initializer.
unfoldable pub is_target : Option Role → Event → Bool
is_target none w = false
is_target (some (write k m v at rs)) w = true
is_target (some role) w = is_initializer w

-- What the steps of a change leave alone of a role, and at every position.
abbrev pub Kept : Option Role → Option Role → Event → Type 0
Kept p o q =
    (access_in p ≡ access_in o)
    × ((w : Event) → reads_from p w ≡ reads_from o w)
    × (is_target p q ≡ is_target o q)

abbrev pub Keeps : ExecutionGraph → ExecutionGraph → Type 0
Keeps g h = (q : Event) → Kept (role_at h q) (role_at g q) q

pub access_in-set_rf :
    (rfs : Rfs) (o : Option Role) → access_in (map_option (set_rf rfs) o) ≡ access_in o
unfolding access_in mem_in set_rf
access_in-set_rf rfs none = refl
access_in-set_rf rfs (some (read k m r)) = refl
access_in-set_rf rfs (some role) = refl

pub listed_in-set_rf :
    (rfs : Rfs) (n : LocMap) (a : Option AAccess) (r w : Event) (role : Role)
    → listed_in n a r w (set_rf rfs role) ≡ listed_in n a r w role
unfolding listed_in set_rf
listed_in-set_rf rfs n a r w (read k m x) = refl
listed_in-set_rf rfs n a r w role = refl

pub is_target-set_rf :
    (rfs : Rfs) (w : Event) (role : Role)
    → is_target (some (set_rf rfs role)) w ≡ is_target (some role) w
unfolding is_target set_rf
is_target-set_rf rfs w (read k m x) = refl
is_target-set_rf rfs w role = refl

pub set_rf-target :
    (rfs : Rfs) (g : ExecutionGraph) (r q w : Event)
    → is_target (role_at (change_role (set_rf rfs) g r) q) w ≡ is_target (role_at g q) w
set_rf-target rfs g r q w =
    ap (λ o. is_target o w) (role_at-change (set_rf rfs) g r q) ∙ targets (same r q) (role_at g q)
  where
    targets :
        (b : Bool) (o : Option Role)
        → is_target (if b then map_option (set_rf rfs) o else o) w ≡ is_target o w
    targets false o = refl
    targets true none = refl
    targets true (some role) = is_target-set_rf rfs w role

pub set_rf-access :
    (rfs : Rfs) (g : ExecutionGraph) (r q : Event)
    → access_in (role_at (change_role (set_rf rfs) g r) q) ≡ access_in (role_at g q)
set_rf-access rfs g r q =
    ap access_in (role_at-change (set_rf rfs) g r q) ∙ accesses (same r q) (role_at g q)
  where
    accesses :
        (b : Bool) (o : Option Role)
        → access_in (if b then map_option (set_rf rfs) o else o) ≡ access_in o
    accesses false o = refl
    accesses true o = access_in-set_rf rfs o

-- What a read reads from does not change who is listed.
pub set_rf-listed :
    (rfs : Rfs) (g : ExecutionGraph) (r q w : Event)
    → is_listed (change_role (set_rf rfs) g r) q w ≡ is_listed g q w
unfolding is_listed listed_at change_role change_label
set_rf-listed rfs g r q w =
    ap (λ a. listed_at g.init_rfs a q w (role_at (change_role (set_rf rfs) g r) w))
      (set_rf-access rfs g r q)
    ∙ ap (λ o. listed_at g.init_rfs (access_in (role_at g q)) q w o)
        (role_at-change (set_rf rfs) g r w)
    ∙ listings (same r w) (role_at g w)
  where
    listings :
        (b : Bool) (o : Option Role)
        → listed_at g.init_rfs
            (access_in (role_at g q))
            q
            w
            (if b then map_option (set_rf rfs) o else o)
          ≡ listed_at g.init_rfs (access_in (role_at g q)) q w o
    listings false o = refl
    listings true none = refl
    listings true (some role) = listed_in-set_rf rfs g.init_rfs (access_in (role_at g q)) q w role
