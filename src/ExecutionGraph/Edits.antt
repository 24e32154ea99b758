-- ===== src/ExecutionGraph/Edits.antt =====
-- src/ExecutionGraph.cpp: the one entry that each step of `changeRf` adds to a list of readers or takes off it.
use mathlib.Core.Option.{none-ne-some, some-injective}
use rustmc.Prelude.{
  ℕ, ◌≡◌, refl, sym, ap, subst, ◌∙◌, Bool, true, false, Bool-cases, Option-cases, inl, inr, List,
  Option, none, some, ◌==◌, ==_iff, if◌then◌else◌, arith,
}
use rustmc.Event.{Event, same, is_initializer}
use rustmc.SAddr.{align}
use rustmc.MemAccess.{AAccess}
use rustmc.SVal.{SVal}
use rustmc.EventLabel.{WriteKind, Role, MemAccess, write}
use rustmc.ExecutionGraph.{
  ExecutionGraph, LocMap, get_event_label, at_loc, or_empty, put_loc, has_event,
}
use rustmc.ExecutionGraph.Change.{change_readers, change_role}
use rustmc.ExecutionGraph.Positions.{same_iff}
use rustmc.ExecutionGraph.Readers.{
  role_at, access_in, is_init_reader, listed_in, listed_at, is_listed,
}
use rustmc.ExecutionGraph.Steps.{
  IsOther, WriteOrOther, write_or_other, role_at-init_rfs, change_readers-listed, listed_init,
  init_rfs-listed, a_write, an_other,
}

-- A change of the readers of `x`, by what it makes of a read's being listed there and being `r`.
abbrev pub Edits : (Bool → Bool → Bool) → ExecutionGraph → ExecutionGraph → Event → Event → Type 0
Edits f g h r x =
    (q w : Event)
    → is_listed h q w ≡ (if same x w then f (is_listed g q w) (same q r) else is_listed g q w)

pub write_edit :
    (f : Bool → Bool → Bool) (change : List Event → List Event) (g : ExecutionGraph) (r x : Event)
    (k : WriteKind) (m : MemAccess) (v : SVal) (at : ℕ) (rs : List Event)
    → role_at g x ≡ some (write k m v at rs)
    → ((q : Event) → has_event q (change rs) ≡ f (has_event q rs) (same q r))
    → Edits f g (change_role (change_readers change) g x) r x
unfolding is_listed listed_at listed_in
write_edit f change g r x k m v at rs h c q w = elim (Bool-cases (same x w)) [
  | inl y ↦
      let here : role_at g w ≡ some (write k m v at rs) =
        subst (λ u. role_at g u ≡ some (write k m v at rs)) (same_iff x w y) h in
      let listed : is_listed g q w ≡ has_event q rs = rw here refl in
      change_readers-listed change g x k m v at rs h q w ∙ rw (y, here) (c q)
  | inr n ↦ change_readers-listed change g x k m v at rs h q w ∙ rw n refl
]

pub listed_write :
    (g : ExecutionGraph) (q w : Event) (k : WriteKind) (m : MemAccess) (v : SVal) (at : ℕ)
    (rs : List Event)
    → role_at g w ≡ some (write k m v at rs)
    → is_listed g q w ≡ has_event q rs
unfolding is_listed listed_at listed_in
listed_write g q w k m v at rs h = rw h refl

pub listed_none : (g : ExecutionGraph) (q w : Event) → role_at g w ≡ none → is_listed g q w ≡ false
unfolding is_listed listed_at
listed_none g q w h = rw h refl

apart :
    (m n : LocMap) (a : Option AAccess) (q w : Event) (role : Role)
    → is_initializer w ≡ false
    → WriteOrOther role
    → listed_in m a q w role ≡ listed_in n a q w role
unfolding listed_in
apart m n a q w role i (a_write k x v at rs) = refl
apart m n a q w role i (an_other is) = ground (arith, is.2 m a q w, is.2 n a q w, i)

listed_apart :
    (m n : LocMap) (a : Option AAccess) (q w : Event) (o : Option Role)
    → is_initializer w ≡ false
    → listed_at m a q w o ≡ listed_at n a q w o
unfolding listed_at
listed_apart m n a q w none i = refl
listed_apart m n a q w (some role) i = apart m n a q w role i (write_or_other role)

pub listed_elsewhere :
    (g : ExecutionGraph) (m : LocMap) (q w : Event)
    → is_initializer w ≡ false
    → is_listed (record g { init_rfs = m }) q w ≡ is_listed g q w
unfolding is_listed role_at get_event_label
listed_elsewhere g m q w i = listed_apart m g.init_rfs (access_in (role_at g q)) q w (role_at g w) i

-- A label that is no write and not the initializer has no readers.
pub listed_other :
    (g : ExecutionGraph) (q w : Event) (role : Role)
    → role_at g w ≡ some role
    → IsOther role
    → is_initializer w ≡ false
    → is_listed g q w ≡ false
unfolding is_listed listed_at
listed_other g q w role e is i =
    let here : is_listed g q w ≡ listed_in g.init_rfs (access_in (role_at g q)) q w role =
      rw e refl in
    here ∙ is.2 g.init_rfs (access_in (role_at g q)) q w ∙ rw i refl

-- A read with no access is in no list of an initial value.
unlisted :
    (g : ExecutionGraph) (q w : Event) (role : Role)
    → role_at g w ≡ some role
    → IsOther role
    → access_in (role_at g q) ≡ none
    → is_listed g q w ≡ false
unfolding is_listed listed_at is_init_reader
unlisted g q w role e is h =
    let here : is_listed g q w ≡ listed_in g.init_rfs none q w role = cc (e, h) in
    here ∙ is.2 g.init_rfs none q w ∙ ground arith

same_access :
    (g : ExecutionGraph) (q r : Event) (a b : AAccess)
    → access_in (role_at g r) ≡ some a
    → access_in (role_at g q) ≡ some b
    → same q r ≡ true
    → b ≡ a
same_access g q r a b h k y = some-injective _ _ (
    sym k
    ∙ subst (λ u. access_in (role_at g q) ≡ access_in (role_at g u)) (same_iff q r y) refl
    ∙ h)

edited :
    (f : Bool → Bool → Bool) (g : ExecutionGraph) (a b : AAccess) (q r : Event) (fs : List Event)
    (old : Bool)
    → ((x : Bool) → f x false ≡ x)
    → has_event q fs
      ≡ f (has_event q (or_empty (at_loc g.init_rfs (align (AAccess.addr a))))) (same q r)
    → old ≡ has_event q (or_empty (at_loc g.init_rfs (align (AAccess.addr b))))
    → (same q r ≡ true → b ≡ a)
    → (if align (AAccess.addr a) == align (AAccess.addr b) then has_event q fs else old)
      ≡ f old (same q r)
edited f g a b q r fs old keep c was at = elim (Bool-cases (same q r)) [
  | inl y ↦
      let words : align (AAccess.addr a) ≡ align (AAccess.addr b) =
        ap (λ u. align (AAccess.addr u)) (sym (at y)) in
      rw ((==_iff (align (AAccess.addr a)) (align (AAccess.addr b))).1 words) (
        c
        ∙ ap (λ o. f o (same q r))
            (ap (λ u. has_event q (or_empty (at_loc g.init_rfs u))) words ∙ sym was))
  | inr n ↦ elim (Bool-cases (align (AAccess.addr a) == align (AAccess.addr b))) [
    | inl z ↦
        let words : align (AAccess.addr a) ≡ align (AAccess.addr b) =
          (==_iff (align (AAccess.addr a)) (align (AAccess.addr b))).0 z in
        rw z (
          c
          ∙ ap (λ o. f o (same q r))
              (ap (λ u. has_event q (or_empty (at_loc g.init_rfs u))) words ∙ sym was))
    | inr z ↦ rw (z, n) (sym (keep old))
  ]
]

pub init_edit :
    (f : Bool → Bool → Bool) (g : ExecutionGraph) (a : AAccess) (r x : Event) (fs : List Event)
    (role : Role)
    → role_at g x ≡ some role
    → IsOther role
    → is_initializer x ≡ true
    → access_in (role_at g r) ≡ some a
    → ((b : Bool) → f b false ≡ b)
    → ((q : Event)
        → has_event q fs
          ≡ f (has_event q (or_empty (at_loc g.init_rfs (align (AAccess.addr a))))) (same q r))
    → Edits f g (record g { init_rfs = put_loc g.init_rfs (align (AAccess.addr a)) fs }) r x
init_edit f g a r x fs role e is ix h keep c q w = elim (Bool-cases (same x w)) [
  | inl y ↦
      let iw : is_initializer w ≡ true = subst (λ u. is_initializer u ≡ true) (same_iff x w y) ix in
      let ew : role_at g w ≡ some role = subst (λ u. role_at g u ≡ some role) (same_iff x w y) e in
      elim (Option-cases (access_in (role_at g q))) [
        | inl missing ↦
            let other_read : same q r ≡ false = elim (Bool-cases (same q r)) [
              | inl z ↦ absurd (
                  none-ne-some _ (
                    sym (subst (λ u. access_in (role_at g u) ≡ none) (same_iff q r z) missing) ∙ h))
              | inr z ↦ z
            ] in
            let before = unlisted g q w role ew is missing in
            let after =
              unlisted (record g { init_rfs = put_loc g.init_rfs (align (AAccess.addr a)) fs }) q w
                role (role_at-init_rfs g (put_loc g.init_rfs (align (AAccess.addr a)) fs) w ∙ ew) is
                (ap access_in
                    (role_at-init_rfs g (put_loc g.init_rfs (align (AAccess.addr a)) fs) q)
                  ∙ missing) in
            after ∙ sym (rw (y, other_read) (keep (is_listed g q w) ∙ before))
        | inr p ↦
            let now = init_rfs-listed g a fs q w role p.0 iw ew is p.1 in
            let was = listed_init g q w role p.0 iw ew is p.1 in
            now
            ∙ edited f g a p.0 q r fs (is_listed g q w) keep (c q) was
                (same_access g q r a p.0 h p.1)
            ∙ sym (rw y refl)
      ]
  | inr n ↦
      let iw : is_initializer w ≡ false = ground (arith, n, ix) in
      listed_elsewhere g (put_loc g.init_rfs (align (AAccess.addr a)) fs) q w iw ∙ rw n refl
]
