-- ===== src/ExecutionGraph/Addition.antt =====
-- src/ExecutionGraph.cpp: what stands at a position after `addLabelToGraph`.
use mathlib.Core.Option.{none-ne-some, some-injective}
use rustmc.Prelude.{
  ℕ, zero, suc, ◌≡◌, refl, sym, ap, subst, ◌∙◌, Bool, true, false, Bool-cases, inl, inr, ◌⊎◌, List,
  [], ◌∷◌, ◌++◌, Option, none, some, ltb, ◌==◌, if◌then◌else◌, ◌>>=◌, arith, length, get_elem?,
  get_or,
}
use rustmc.Event.{Event, same}
use rustmc.EventLabel.{EventLabel, is_empty}
use rustmc.ExecutionGraph.{
  ExecutionGraph, get_event_label, change_label, map_at, add_label_to_graph, place, stamped,
  next_stamp, get_thread_size, get_num_threads,
}
use rustmc.ExecutionGraph.Positions.{map_option, get-change, same_iff}
use rustmc.ExecutionGraph.Readers.{role_of, role_at}

get_elem?-append {ℓ} :
    {A : Type ℓ} (xs : List A) (a : A) (j : ℕ)
    → get_elem? (xs ++ a ∷ []) j ≡ (if length xs == j then some a else get_elem? xs j)
get_elem?-append [] a zero = refl
get_elem?-append [] a (suc j) = ground arith
get_elem?-append (x ∷ xs) a zero = ground arith
get_elem?-append (x ∷ xs) a (suc j) = ground (arith, get_elem?-append xs a j)

get_or-map_at_in {ℓ} :
    {A : Type ℓ} (f : List A → List A) (xs : List (List A)) (i j : ℕ)
    → ltb i (length xs) ≡ true
    → get_or (map_at f xs i) j [] ≡ (if i == j then f (get_or xs j []) else get_or xs j [])
unfolding map_at
get_or-map_at_in f [] i j e = ground (arith, e)
get_or-map_at_in f (x ∷ xs) zero zero e = refl
get_or-map_at_in f (x ∷ xs) zero (suc j) e = ground arith
get_or-map_at_in f (x ∷ xs) (suc i) zero e = ground arith
get_or-map_at_in f (x ∷ xs) (suc i) (suc j) e =
    ground (arith, get_or-map_at_in f xs i j (ground (arith, e)))

-- The label at the end of a thread.
get-append :
    (g : ExecutionGraph) (l : EventLabel) (q : Event)
    → ltb l.pos.thread (get_num_threads g) ≡ true
    → (l.pos.index == get_thread_size g l.pos.thread) ≡ true
    → get_event_label (record g { events = map_at (λ thr. thr ++ l ∷ []) g.events l.pos.thread }) q
      ≡ (if same l.pos q then some l else get_event_label g q)
unfolding get_event_label
get-append g l q t i =
    rw (get_or-map_at_in (λ thr. thr ++ l ∷ []) g.events l.pos.thread q.thread t)
      (ground (arith, get_elem?-append (get_or g.events q.thread []) l q.index, i))

-- A test with two outcomes that gave a result, and the outcome of the test.
pub if-gives {ℓ} :
    {A : Type ℓ} (b : Bool) (x y : Option A) (a : A)
    → (if b then x else y) ≡ some a
    → ((b ≡ true) × (x ≡ some a)) ⊎ ((b ≡ false) × (y ≡ some a))
if-gives true x y a h = inl (refl, h)
if-gives false x y a h = inr (refl, h)

-- A step that gives a result, and the rest of the computation.
pub bind-gives {ℓ κ} :
    {A : Type ℓ} {B : Type κ} (o : Option A) (f : A → Option B) (b : B)
    → (o >>= f) ≡ some b
    → (a : A) × (o ≡ some a) × (f a ≡ some b)
bind-gives none f b h = absurd (none-ne-some _ h)
bind-gives (some a) f b h = (a, refl, h)

replaced_option {ℓ} :
    {A : Type ℓ} (b : Bool) (o : Option A) (x y : A)
    → (b ≡ true → o ≡ some x)
    → (if b then map_option (λ z. y) o else o) ≡ (if b then some y else o)
replaced_option true o x y there = ap (map_option (λ z. y)) (there refl)
replaced_option false o x y there = refl

-- An empty label that is replaced.
replaced-label :
    (g k : ExecutionGraph) (l : EventLabel) (q : Event)
    → (get_event_label g l.pos >>= λ x.
        if is_empty x.role then some (change_label (λ y. l) g l.pos) else none)
      ≡ some k
    → get_event_label k q ≡ (if same l.pos q then some l else get_event_label g q)
replaced-label g k l q is =
    let (x, there, r0) = bind-gives (get_event_label g l.pos) _ k is in
    elim (if-gives (is_empty x.role) _ _ k r0) [
      | inr n ↦ absurd (none-ne-some _ n.1)
      | inl its ↦
          ap (λ u. get_event_label u q) (sym (some-injective _ _ its.1))
          ∙ get-change (λ y. l) g l.pos q
          ∙ replaced_option (same l.pos q) (get_event_label g q) x l
              (λ s. ap (get_event_label g) (sym (same_iff l.pos q s)) ∙ there)
    ]

place-label :
    (g k : ExecutionGraph) (l : EventLabel) (q : Event)
    → place g l ≡ some k
    → get_event_label k q ≡ (if same l.pos q then some l else get_event_label g q)
unfolding place
place-label g k l q is = elim (if-gives (ltb l.pos.thread (get_num_threads g)) _ _ k is) [
  | inr n ↦ absurd (none-ne-some _ n.1)
  | inl (t, inside) ↦
      elim (if-gives (ltb l.pos.index (get_thread_size g l.pos.thread)) _ _ k inside) [
        | inl (_, old) ↦ replaced-label g k l q old
        | inr (_, fresh) ↦
            elim (if-gives (l.pos.index == get_thread_size g l.pos.thread) _ _ k fresh) [
              | inr n ↦ absurd (none-ne-some _ n.1)
              | inl (i, its) ↦
                  subst
                    (λ u.
                      get_event_label u q ≡ (if same l.pos q then some l else get_event_label g q))
                    (some-injective _ _ its) (get-append g l q t i)
            ]
      ]
]

stamped-keeps :
    (g : ExecutionGraph) (l : EventLabel) (q : Event)
    → let p = stamped g l in
      (get_event_label p.0 q ≡ get_event_label g q)
      × (EventLabel.pos p.1 ≡ l.pos)
      × (EventLabel.role p.1 ≡ l.role)
unfolding stamped next_stamp get_event_label
stamped-keeps g l q = elim (Bool-cases l.has_stamp) [
  | inl s ↦ rw s (refl, refl, refl)
  | inr n ↦ rw n (refl, refl, refl)
]

role_of-if :
    (b : Bool) (l : EventLabel) (o : Option EventLabel)
    → role_of (if b then some l else o) ≡ (if b then some l.role else role_of o)
role_of-if true l o = refl
role_of-if false l o = refl

-- A label that is added stands at its position, and the others where they stood.
pub role_at-add_label_to_graph :
    (g k : ExecutionGraph) (l : EventLabel) (q : Event)
    → add_label_to_graph g l ≡ some k
    → role_at k q ≡ (if same l.pos q then some l.role else role_at g q)
unfolding add_label_to_graph role_at
role_at-add_label_to_graph g k l q is =
    let p = stamped g l in
    let (stays, where_it, what) = stamped-keeps g l q in
    let put = ap role_of (place-label p.0 k p.1 q is) in
    put
    ∙ role_of-if (same (EventLabel.pos p.1) q) p.1 (get_event_label p.0 q)
    ∙ rw (where_it, what, stays) refl
