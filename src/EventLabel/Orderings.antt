-- ===== src/EventLabel/Orderings.antt =====
-- src/EventLabel.hpp: the tests of the orderings of accesses.
use rustmc.Prelude.{Bool, true, false}
use rustmc.EventLabel.{
  AtomicOrdering, not_atomic, unordered, monotonic, acquire, release, acquire_release,
  sequentially_consistent,
}

pub is_at_least_acquire : AtomicOrdering → Bool
is_at_least_acquire not_atomic = false
is_at_least_acquire unordered = false
is_at_least_acquire monotonic = false
is_at_least_acquire acquire = true
is_at_least_acquire release = false
is_at_least_acquire acquire_release = true
is_at_least_acquire sequentially_consistent = true

pub is_at_most_acquire : AtomicOrdering → Bool
is_at_most_acquire not_atomic = true
is_at_most_acquire unordered = false
is_at_most_acquire monotonic = true
is_at_most_acquire acquire = true
is_at_most_acquire release = false
is_at_most_acquire acquire_release = false
is_at_most_acquire sequentially_consistent = false

unfoldable pub is_at_least_release : AtomicOrdering → Bool
is_at_least_release not_atomic = false
is_at_least_release unordered = false
is_at_least_release monotonic = false
is_at_least_release acquire = false
is_at_least_release release = true
is_at_least_release acquire_release = true
is_at_least_release sequentially_consistent = true

pub is_at_most_release : AtomicOrdering → Bool
is_at_most_release not_atomic = true
is_at_most_release unordered = false
is_at_most_release monotonic = true
is_at_most_release acquire = false
is_at_most_release release = true
is_at_most_release acquire_release = false
is_at_most_release sequentially_consistent = false
