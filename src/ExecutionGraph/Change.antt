-- ===== src/ExecutionGraph/Change.antt =====
-- src/ExecutionGraph.cpp: changes of the stores that a read reads from, `changeRf` in its two forms, and
-- the removal of a thread's last label. A store at the position of the initializer is the initial value.
use rustmc.Prelude.{
  ℕ, ◌-◌, Bool, false, ◌&&◌, ◌||◌, List, [], ◌∷◌, ◌++◌, Option, none, some, if◌then◌else◌, ◌>>=◌,
  take,
}
use rustmc.Event.{Event, same, is_initializer}
use rustmc.SAddr.{align}
use rustmc.MemAccess.{AAccess, overlaps}
use rustmc.EventLabel.{Role, Rfs, MemAccess, read, write, malloc, free}
use rustmc.ExecutionGraph.{
  ExecutionGraph, get_event_label, change_label, map_at, at_loc, or_empty, put_loc, has_event,
  remove_if, get_thread_size,
}

-- The fields of labels that are changed; a label of another class stays as it is.
unfoldable pub set_rf : Rfs → Role → Role
set_rf rfs (read k m r) = read k m rfs
set_rf rfs r = r

unfoldable pub change_readers : (List Event → List Event) → Role → Role
change_readers f (write k m v a rs) = write k m v a (f rs)
change_readers f r = r

unfoldable pub change_role : (Role → Role) → ExecutionGraph → Event → ExecutionGraph
unfolding change_label
change_role f g e = change_label (λ l. record l { role = f l.role }) g e

unfoldable pub rfs_in : Role → Rfs
rfs_in (read k m r) = r
rfs_in r = []

unfoldable pub mem_in : Role → Option MemAccess
mem_in (read k m r) = some m
mem_in (write k m v a rs) = some m
mem_in r = none

-- The access of the label at a position.
unfoldable pub access_at : ExecutionGraph → Event → Option AAccess
unfolding get_event_label mem_in
access_at g e = elim (get_event_label g e) [
  | none ↦ none
  | some l ↦ elim (mem_in l.role) [ none ↦ none | some m ↦ some (MemAccess.access m) ]
]

unfoldable pub init_readers : ExecutionGraph → AAccess → List Event
unfolding at_loc or_empty
init_readers g a = or_empty (at_loc g.init_rfs (align (AAccess.addr a)))

-- Whether a reader is met by `rf_begin(a)`, and is at the position.
unfoldable pub is_overlapping : ExecutionGraph → AAccess → Event → List Event → Bool
unfolding access_at
is_overlapping g a r [] = false
is_overlapping g a r (e ∷ es) =
    (same e r && elim (access_at g e) as (λ x. Bool) [ none ↦ false | some b ↦ overlaps a b ])
    || is_overlapping g a r es

-- `addInitRfToLoc` and `removeInitRfToLoc`
unfoldable pub add_init_rf : ExecutionGraph → AAccess → Event → Option ExecutionGraph
unfolding init_readers is_overlapping put_loc
add_init_rf g a r =
    if is_overlapping g a r (init_readers g a)
    then none
    else some (record g {
      init_rfs = put_loc g.init_rfs (align (AAccess.addr a)) (init_readers g a ++ r ∷ []);
    })

unfoldable pub remove_init_rf : ExecutionGraph → AAccess → Event → ExecutionGraph
unfolding init_readers remove_if put_loc
remove_init_rf g a r = record g {
  init_rfs =
      put_loc g.init_rfs (align (AAccess.addr a)) (remove_if (λ e. same e r) (init_readers g a));
}

-- A read with an access is taken off the readers of the label at a position, which has the role.
unfoldable pub detach_from : ExecutionGraph → AAccess → Event → Event → Role → ExecutionGraph
unfolding change_role change_readers remove_init_rf remove_if
detach_from g a r w (write k m v at rs) =
    change_role (change_readers (remove_if (λ e. same e r))) g w
detach_from g a r w role = if is_initializer w then remove_init_rf g a r else g

unfoldable pub detach : ExecutionGraph → AAccess → Event → Event → ExecutionGraph
unfolding get_event_label detach_from
detach g a r w = elim (get_event_label g w) [ none ↦ g | some l ↦ detach_from g a r w l.role ]

-- The read is added to the readers; `none` is the abort of a read that is a reader already, and of a
-- store that is no write.
unfoldable pub attach_to : ExecutionGraph → AAccess → Event → Event → Role → Option ExecutionGraph
unfolding change_role change_readers add_init_rf has_event
attach_to g a r w (write k m v at rs) =
    if has_event r rs then none else some (change_role (change_readers (λ es. es ++ r ∷ [])) g w)
attach_to g a r w role = if is_initializer w then add_init_rf g a r else none

unfoldable pub attach : ExecutionGraph → AAccess → Event → Event → Option ExecutionGraph
unfolding get_event_label attach_to
attach g a r w = get_event_label g w >>= λ l. attach_to g a r w l.role

-- `changeRf(Event, Event)`: the read reads its whole access from the store, or from nothing.
unfoldable pub store_rfs : AAccess → Option Event → Rfs
store_rfs a none = []
store_rfs a (some w) = (w, a) ∷ []

unfoldable pub detach_first : ExecutionGraph → AAccess → Event → Rfs → ExecutionGraph
unfolding detach
detach_first g a r [] = g
detach_first g a r ((w, b) ∷ rfs) = detach g a r w

unfoldable pub attach_store :
    ExecutionGraph → AAccess → Event → Option Event → Option ExecutionGraph
unfolding attach
attach_store g a r none = some g
attach_store g a r (some w) = attach g a r w

unfoldable pub change_read : ExecutionGraph → Event → Option Event → Role → Option ExecutionGraph
unfolding change_role set_rf store_rfs detach_first attach_store
change_read g r store (read k m old) =
    attach_store (detach_first (change_role (set_rf (store_rfs m.access store)) g r) m.access r old)
      m.access r store
change_read g r store role = none

unfoldable pub change_rf : ExecutionGraph → Event → Option Event → Option ExecutionGraph
unfolding get_event_label change_read
change_rf g r store = get_event_label g r >>= λ l. change_read g r store l.role

-- `changeRf(Event, RfsT)`: the read reads parts of its access from several stores.
unfoldable pub detach_all : ExecutionGraph → AAccess → Event → Rfs → ExecutionGraph
unfolding detach
detach_all g a r [] = g
detach_all g a r ((w, b) ∷ rfs) = detach_all (detach g a r w) a r rfs

-- Each store once, in the order of their first parts.
unfoldable pub stores_of : List Event → Rfs → List Event
unfolding has_event
stores_of seen [] = []
stores_of seen ((w, b) ∷ rfs) =
    if has_event w seen then stores_of seen rfs else w ∷ stores_of (w ∷ seen) rfs

unfoldable pub attach_all : ExecutionGraph → AAccess → Event → List Event → Option ExecutionGraph
unfolding attach
attach_all g a r [] = some g
attach_all g a r (w ∷ ws) = attach g a r w >>= λ h. attach_all h a r ws

unfoldable pub change_parts : ExecutionGraph → Event → Rfs → Role → Option ExecutionGraph
unfolding change_role set_rf detach_all stores_of attach_all
change_parts g r rfs (read k m old) =
    attach_all (detach_all (change_role (set_rf rfs) g r) m.access r old) m.access r
      (stores_of [] rfs)
change_parts g r rfs role = none

unfoldable pub change_rfs : ExecutionGraph → Event → Rfs → Option ExecutionGraph
unfolding get_event_label change_parts
change_rfs g r rfs = get_event_label g r >>= λ l. change_parts g r rfs l.role

-- `removeLast`: what each kind of label does to the labels that it is tied to.
clear_readers : ExecutionGraph → List Event → ExecutionGraph
unfolding change_role set_rf
clear_readers g [] = g
clear_readers g (r ∷ rs) = clear_readers (change_role (set_rf []) g r) rs

leave_writes : ExecutionGraph → Event → Rfs → ExecutionGraph
unfolding change_role change_readers remove_if
leave_writes g r [] = g
leave_writes g r ((w, b) ∷ rfs) =
    leave_writes (change_role (change_readers (remove_if (λ e. same e r))) g w) r rfs

set_free : Option Event → Role → Role
set_free d (malloc a n f ms) = malloc a n d ms
set_free d r = r

set_free_alloc : Option Event → Role → Role
set_free_alloc a (free k x m) = free k x a
set_free_alloc a r = r

change_accesses : (List Event → List Event) → Role → Role
change_accesses f (malloc a n d ms) = malloc a n d (f ms)
change_accesses f r = r

leave_alloc : ExecutionGraph → Event → Option Event → ExecutionGraph
unfolding change_role change_accesses remove_if
leave_alloc g e none = g
leave_alloc g e (some a) = change_role (change_accesses (remove_if (λ m. same m e))) g a

untie : ExecutionGraph → Event → Role → Option ExecutionGraph
unfolding clear_readers leave_writes leave_alloc set_free set_free_alloc change_role
untie g e (read k m rfs) = some (leave_alloc (leave_writes g e rfs) e m.alloc)
untie g e (write k m v a rs) = some (leave_alloc (clear_readers g rs) e m.alloc)
untie g e (free k x none) = none
untie g e (free k x (some a)) = some (change_role (set_free none) g a)
untie g e (malloc x n none ms) = some g
untie g e (malloc x n (some d) ms) = some (change_role (set_free_alloc none) g d)
untie g e role = some g

-- `resizeThread`
unfoldable pub resize_thread : ExecutionGraph → Event → ExecutionGraph
unfolding map_at
resize_thread g e = record g { events = map_at (take e.index) g.events e.thread }

unfoldable pub remove_last : ExecutionGraph → ℕ → Option ExecutionGraph
unfolding untie resize_thread get_event_label
remove_last g t =
    let e : Event = record { thread = t; index = get_thread_size g t - 1 } in
    get_event_label g e >>= λ l. untie g e l.role >>= λ h. some (resize_thread h e)

-- `addAlloc`: the access and its allocation, if there is one, know of each other; it is an abort when the
-- allocation has the access already.
set_alloc : Option Event → Role → Role
set_alloc a (read k m r) = read k (record m { alloc = a }) r
set_alloc a (write k m v at rs) = write k (record m { alloc = a }) v at rs
set_alloc a r = r

add_access : ExecutionGraph → Event → Event → Role → Option ExecutionGraph
unfolding change_role change_accesses has_event
add_access g a m (malloc x n d ms) =
    if has_event m ms then none else some (change_role (change_accesses (λ es. es ++ m ∷ [])) g a)
add_access g a m role = none

unfoldable pub add_alloc : ExecutionGraph → Option Event → Event → Option ExecutionGraph
unfolding set_alloc add_access change_role get_event_label
add_alloc g none m = some g
add_alloc g (some a) m =
    get_event_label g a >>= λ l. add_access (change_role (set_alloc (some a)) g m) a m l.role
