-- ===== src/Event.antt =====
-- src/Event.hpp: positions in an execution graph. Threads and indices of positions inside a graph
-- are not negative, and are numbers here; the default and the bottom position, whose negative
-- fields are there to be out of every range, are no values of this record.
use rustmc.Prelude.{ℕ, suc, Bool, ◌&&◌, ◌==◌, ltb, if◌then◌else◌, Option, none, some}
use Prim.Native.Nat.{compare, Ordering}
pub mod Order

pub record Event : Type 0 where
  pub thread : ℕ
  pub index : ℕ

abbrev pub init : Event
init = record { thread = 0; index = 0 }

-- `operator==`
abbrev pub same : Event → Event → Bool
same a b = a.thread == b.thread && a.index == b.index

abbrev pub is_initializer : Event → Bool
is_initializer e = same e init

abbrev pub next : Event → Event
next e = record e { index = suc e.index }

-- `operator<=>`: positions of different threads are unordered.
pub compare_po : Event → Event → Option Ordering
compare_po a b = if a.thread == b.thread then some (compare a.index b.index) else none

-- `EventL2RCompare`
pub l2r : Event → Event → Bool
l2r a b = if a.thread == b.thread then ltb a.index b.index else ltb a.thread b.thread
