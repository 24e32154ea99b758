-- ===== src/Event/Order.antt =====
-- src/Event.hpp: the order of positions by thread and index, and the partial order within a thread.
use rustmc.Prelude.{◌≡◌, Bool, true, false, not, ◌&&◌, ◌||◌, ◌==◌, Option, none, some, arith}
use rustmc.Event.{Event, same, l2r, compare_po}
use Prim.Native.Nat.{Ordering}

-- A strict order in which any two positions that are not the same are comparable.
pub record IsStrictTotal (less : Event → Event → Bool) : Type 0 where
  pub irreflexive : (a b : Event) → (same a b && less a b) ≡ false
  pub transitive : (a b c : Event) → (less a b && less b c && not (less a c)) ≡ false
  pub total : (a b : Event) → (same a b || less a b || less b a) ≡ true

-- `EventL2RCompare` is a strict total order on positions, in which only positions that are the same are
-- not comparable.
pub l2r-IsStrictTotal : IsStrictTotal l2r
unfolding l2r
l2r-IsStrictTotal = record {
  irreflexive = λ a b. ground arith;
  transitive = λ a b c. ground arith;
  total = λ a b. ground arith;
}

-- An answer of the partial order, as the total order and the equality see it.
pub is_right : Option Ordering → Event → Event → Bool
is_right none a b = not (a.thread == b.thread)
is_right (some Ordering.lt) a b = l2r a b
is_right (some Ordering.eq) a b = same a b
is_right (some Ordering.gt) a b = l2r b a

-- Each answer of `operator<=>` is right: within a thread it is that of the total order and of the equality,
-- and there is none exactly across threads.
pub compare_po-is_right : (a b : Event) → is_right (compare_po a b) a b ≡ true
unfolding is_right l2r compare_po
compare_po-is_right a b = grind arith
