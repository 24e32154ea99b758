-- ===== src/ExecutionGraph/Searches.antt =====
-- src/ExecutionGraph.cpp: searches along a thread, and over all labels of the graph. A search that finds
-- nothing answers the initializer's position, as in the source.
use rustmc.Prelude.{
  ℕ, zero, suc, ◌+◌, ◌-◌, Bool, true, false, not, ◌&&◌, List, [], ◌∷◌, Option, none, some, ltb, leb,
  ◌==◌, if◌then◌else◌, ◌>>=◌, length, get_elem?,
}
use rustmc.Event.{Event, init}
use rustmc.SAddr.{SAddr, plus}
use rustmc.MemAccess.{AAccess}
use rustmc.EventLabel.{
  EventLabel, Role, ReadKind, WriteKind, OtherKind, MemAccess, AtomicOrdering, thread_create,
  thread_finish, read, write, fence, malloc, other, is_empty,
}
use rustmc.EventLabel.Orderings.{is_at_least_release}
use rustmc.ExecutionGraph.{ExecutionGraph, get_event_label, thread_at}

abbrev pub addr_of : MemAccess → SAddr
addr_of m = AAccess.addr (MemAccess.access m)

-- The last of the labels at the indices 1 to `k` that passes a test.
pub last_before : (EventLabel → Bool) → List EventLabel → ℕ → Option (Option ℕ)
last_before p thr zero = some none
last_before p thr (suc j) =
    let rest = last_before p thr j in
    get_elem? thr (suc j) >>= λ l. if p l then some (some (suc j)) else rest

or_start : ℕ → Option ℕ → Event
or_start t none = record { thread = t; index = 0 }
or_start t (some j) = record { thread = t; index = j }

or_init : ℕ → Option ℕ → Event
or_init t none = init
or_init t (some j) = record { thread = t; index = j }

get_previous_non_empty_label : ExecutionGraph → Event → Option EventLabel
unfolding last_before or_start get_event_label
get_previous_non_empty_label g e =
    last_before (λ l. not (is_empty (EventLabel.role l))) (thread_at g e.thread) (e.index - 1)
    >>= λ j. get_event_label g (or_start e.thread j)

is_store_at : SAddr → Role → Bool
is_store_at a (write k m v at rs) = addr_of m == a
is_store_at a role = false

get_last_thread_store_at_loc : ExecutionGraph → Event → SAddr → Option Event
unfolding last_before or_init is_store_at
get_last_thread_store_at_loc g e a =
    last_before (λ l. is_store_at a (EventLabel.role l)) (thread_at g e.thread) (e.index - 1)
    >>= λ j. some (or_init e.thread j)

is_release_at : SAddr → AtomicOrdering → Role → Bool
unfolding is_at_least_release
is_release_at a o (thread_create t) = true
is_release_at a o (thread_finish j) = true
is_release_at a o (other OtherKind.unlock_lapor) = true
is_release_at a o (fence k) = is_at_least_release o
is_release_at a o (write k m v at rs) = is_at_least_release o && addr_of m == a
is_release_at a o role = false

get_last_thread_release_at_loc : ExecutionGraph → Event → SAddr → Option Event
unfolding last_before or_start is_release_at
get_last_thread_release_at_loc g e a =
    last_before (λ l. is_release_at a (EventLabel.ordering l) (EventLabel.role l))
      (thread_at g e.thread) (e.index - 1)
    >>= λ j. some (or_start e.thread j)

is_speculative_at : SAddr → Role → Bool
is_speculative_at a (read ReadKind.speculative m rfs) = addr_of m == a
is_speculative_at a role = false

read_addr : Role → Option SAddr
read_addr (read k m rfs) = some (addr_of m)
read_addr role = none

-- Without the out-parameter `sc`.
get_matching_speculative_read : ExecutionGraph → Event → Option Event
unfolding last_before or_init is_speculative_at read_addr get_event_label
get_matching_speculative_read g e = get_event_label g e >>= λ l.
    read_addr (EventLabel.role l) >>= λ a.
    last_before (λ m. is_speculative_at a (EventLabel.role m)) (thread_at g e.thread) (e.index - 1)
    >>= λ j. some (or_init e.thread j)

-- What a label is to the search for the other end of a critical section of a lock.
pub data Mark : Type 0 where
  locks unlocks neither : Mark

mark_of : SAddr → Role → Mark
mark_of a (write WriteKind.unlock m v at rs) = if addr_of m == a then unlocks else neither
mark_of a (write WriteKind.lock_cas m v at rs) = if addr_of m == a then locks else neither
mark_of a (write WriteKind.trylock_cas m v at rs) = if addr_of m == a then locks else neither
mark_of a role = neither

pub mark_at : SAddr → List EventLabel → ℕ → Option Mark
unfolding mark_of
mark_at a thr i = get_elem? thr i >>= λ l. some (mark_of a (EventLabel.role l))

-- The loop of `getMatchingLock` over the indices `k` to 1, with the unlocks that are not matched yet: the
-- index of the read of the lock.
unfoldable pub lock_loop : SAddr → List EventLabel → ℕ → List ℕ → Option (Option ℕ)
unfolding mark_at
lock_loop a thr zero open_unlocks = some none
lock_loop a thr (suc j) open_unlocks =
    let skip = lock_loop a thr j open_unlocks in
    let push = lock_loop a thr j (suc j ∷ open_unlocks) in
    let popped = elim open_unlocks as (λ x. Option (Option ℕ)) [
      | [] ↦ some (some j)
      | u ∷ us ↦ lock_loop a thr j us
    ] in
    mark_at a thr (suc j) >>= λ m. elim m as (λ x. Option (Option ℕ)) [
      | locks ↦ popped
      | unlocks ↦ push
      | neither ↦ skip
    ]

unlock_addr : Role → Option SAddr
unlock_addr (write WriteKind.unlock m v at rs) = some (addr_of m)
unlock_addr role = none

pub get_matching_lock : ExecutionGraph → Event → Option Event
unfolding lock_loop or_init unlock_addr get_event_label
get_matching_lock g e = get_event_label g e >>= λ l. unlock_addr (EventLabel.role l) >>= λ a.
    lock_loop a (thread_at g e.thread) (e.index - 1) [] >>= λ j. some (or_init e.thread j)

-- The loop of `getMatchingUnlock` over `left` labels from the index `i` on.
unfoldable pub unlock_loop : SAddr → List EventLabel → ℕ → ℕ → List ℕ → Option (Option ℕ)
unfolding mark_at
unlock_loop a thr zero i open_locks = some none
unlock_loop a thr (suc left) i open_locks =
    let skip = unlock_loop a thr left (suc i) open_locks in
    let push = unlock_loop a thr left (suc i) ((i - 1) ∷ open_locks) in
    let popped = elim open_locks as (λ x. Option (Option ℕ)) [
      | [] ↦ some (some i)
      | l ∷ ls ↦ unlock_loop a thr left (suc i) ls
    ] in
    mark_at a thr i >>= λ m. elim m as (λ x. Option (Option ℕ)) [
      | locks ↦ push
      | unlocks ↦ popped
      | neither ↦ skip
    ]

lock_addr : Role → Option SAddr
lock_addr (read ReadKind.lock_cas m rfs) = some (addr_of m)
lock_addr (read ReadKind.trylock_cas m rfs) = some (addr_of m)
lock_addr role = none

pub get_matching_unlock : ExecutionGraph → Event → Option Event
unfolding unlock_loop or_init lock_addr get_event_label
get_matching_unlock g e = get_event_label g e >>= λ l. lock_addr (EventLabel.role l) >>= λ a.
    unlock_loop a (thread_at g e.thread) (length (thread_at g e.thread) - (e.index + 2))
      (e.index + 2) []
    >>= λ j. some (or_init e.thread j)

-- The first label of a list, and of the graph, that passes a test.
find_in : (EventLabel → Bool) → List EventLabel → Option Event
find_in p [] = none
find_in p (l ∷ ls) = let rest = find_in p ls in if p l then some (EventLabel.pos l) else rest

or_found : Option Event → Option Event → Option Event
or_found none o = o
or_found (some e) o = some e

find_label : (EventLabel → Bool) → List (List EventLabel) → Option Event
unfolding find_in or_found
find_label p [] = none
find_label p (thr ∷ thrs) = or_found (find_in p thr) (find_label p thrs)

or_initializer : Option Event → Event
or_initializer none = init
or_initializer (some e) = e

-- `MallocLabel::contains`
block_contains : SAddr → Role → Bool
block_contains x (malloc a n d ms) = leb a x && ltb x (plus a n)
block_contains x role = false

get_malloc : ExecutionGraph → SAddr → Event
unfolding find_label or_initializer block_contains
get_malloc g x = or_initializer (find_label (λ l. block_contains x (EventLabel.role l)) g.events)

starts_at : SAddr → Role → Bool
starts_at x (malloc a n d ms) = a == x
starts_at x role = false

get_malloc_counterpart : ExecutionGraph → SAddr → Event
unfolding find_label or_initializer starts_at
get_malloc_counterpart g freed =
    or_initializer (find_label (λ l. starts_at freed (EventLabel.role l)) g.events)
