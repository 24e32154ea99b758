-- ===== src/ExecutionGraph/Positions.antt =====
-- src/ExecutionGraph.hpp: what stands at a position after a change in place, and lists of positions.
use rustmc.Prelude.{
  ℕ, zero, suc, ◌≡◌, refl, true, not, ◌&&◌, ◌||◌, List, [], ◌∷◌, ◌++◌, Option, none, some, ◌==◌,
  if◌then◌else◌, get_elem?, get_or, arith,
}
use rustmc.Event.{Event, same}
use rustmc.EventLabel.{EventLabel}
use rustmc.ExecutionGraph.{
  ExecutionGraph, get_event_label, change_label, map_at, has_event, remove_if, at_loc, put_loc,
  or_empty, LocMap,
}

abbrev pub map_option {ℓ} : {A : Type ℓ} → (A → A) → Option A → Option A
map_option f none = none
map_option f (some a) = some (f a)

get_elem?-map_at {ℓ} :
    {A : Type ℓ} (f : A → A) (xs : List A) (i j : ℕ)
    → get_elem? (map_at f xs i) j
      ≡ (if i == j then map_option f (get_elem? xs j) else get_elem? xs j)
unfolding map_at
get_elem?-map_at f [] i j = ground arith
get_elem?-map_at f (x ∷ xs) zero zero = refl
get_elem?-map_at f (x ∷ xs) zero (suc j) = ground arith
get_elem?-map_at f (x ∷ xs) (suc i) zero = ground arith
get_elem?-map_at f (x ∷ xs) (suc i) (suc j) = ground (arith, get_elem?-map_at f xs i j)

get_or-map_at {ℓ} :
    {A : Type ℓ} (f : List A → List A) (xs : List (List A)) (i j : ℕ)
    → f [] ≡ []
    → get_or (map_at f xs i) j [] ≡ (if i == j then f (get_or xs j []) else get_or xs j [])
unfolding map_at
get_or-map_at f [] i j e = ground (arith, e)
get_or-map_at f (x ∷ xs) zero zero e = refl
get_or-map_at f (x ∷ xs) zero (suc j) e = ground arith
get_or-map_at f (x ∷ xs) (suc i) zero e = ground arith
get_or-map_at f (x ∷ xs) (suc i) (suc j) e = ground (arith, get_or-map_at f xs i j e)

-- A change in place concerns the label at its position only.
pub get-change :
    (f : EventLabel → EventLabel) (g : ExecutionGraph) (e q : Event)
    → get_event_label (change_label f g e) q
      ≡ (if same e q then map_option f (get_event_label g q) else get_event_label g q)
unfolding get_event_label change_label
get-change f g e q =
    rw
      (get_or-map_at (λ thr. map_at f thr e.index) g.events e.thread q.thread
        (unfold map_at in refl))
      (ground (arith, get_elem?-map_at f (get_or g.events q.thread []) e.index q.index))

pub same_iff : (a b : Event) → same a b ≡ true → a ≡ b
same_iff a b h = ground (arith, h)

pub same_refl : (a : Event) → same a a ≡ true
same_refl a = ground arith

pub has_event-remove_if :
    (r q : Event) (es : List Event)
    → has_event q (remove_if (λ e. same e r) es) ≡ (has_event q es && not (same q r))
unfolding has_event remove_if
has_event-remove_if r q [] = refl
has_event-remove_if r q (e ∷ es) = ground (arith, has_event-remove_if r q es)

pub has_event-append :
    (r q : Event) (es : List Event) → has_event q (es ++ r ∷ []) ≡ (has_event q es || same q r)
unfolding has_event
has_event-append r q [] = ground arith
has_event-append r q (e ∷ es) = ground (arith, has_event-append r q es)

pub at_loc-put_loc :
    (m : LocMap) (a b : ℕ) (fs : List Event)
    → or_empty (at_loc (put_loc m a fs) b) ≡ (if a == b then fs else or_empty (at_loc m b))
unfolding at_loc put_loc or_empty
at_loc-put_loc [] a b fs = ground arith
at_loc-put_loc ((c, es) ∷ m) a b fs = ground (arith, at_loc-put_loc m a b fs)
