-- ===== src/ExecutionGraph/Attach.antt =====
-- src/ExecutionGraph.cpp: a read is taken off the readers of a store, and added to them.
use rustmc.Prelude.{
  ◌≡◌, refl, sym, ap, subst, ◌∙◌, Bool, true, false, not, ◌&&◌, ◌||◌, Bool-cases, Option-cases, inl,
  inr, List, [], ◌∷◌, ◌++◌, Option, none, some, arith,
}
use rustmc.Event.{Event, same, is_initializer}
use rustmc.SAddr.{align}
use rustmc.MemAccess.{AAccess}
use rustmc.EventLabel.{EventLabel, Role}
use rustmc.ExecutionGraph.{ExecutionGraph, get_event_label, put_loc, has_event, remove_if}
use rustmc.ExecutionGraph.Change.{
  change_readers, change_role, init_readers, is_overlapping, add_init_rf, remove_init_rf,
  detach_from, detach, attach_to, attach,
}
use rustmc.ExecutionGraph.Positions.{same_iff, has_event-remove_if, has_event-append}
use rustmc.ExecutionGraph.Readers.{role_at, access_in, is_listed, is_target, Keeps}
use rustmc.ExecutionGraph.Steps.{
  IsOther, WriteOrOther, a_write, an_other, write_or_other, change_readers-Keeps, init_rfs-Keeps,
  listed_init,
}
use rustmc.ExecutionGraph.Edits.{
  Edits, write_edit, init_edit, listed_none, listed_other, listed_write,
}

abbrev pub gone : Bool → Bool → Bool
gone b s = b && not s

abbrev pub come : Bool → Bool → Bool
come b s = b || s

pub Keeps-refl : (g : ExecutionGraph) → Keeps g g
Keeps-refl g q = (refl, λ w. refl, refl)

-- The effect of taking a read off the readers of `x`.
abbrev pub IsDetached : ExecutionGraph → ExecutionGraph → Event → Event → Type 0
IsDetached g h r x = Keeps g h × Edits gone g h r x

-- A store with no readers loses none.
none_listed :
    (f : Bool → Bool → Bool) (g : ExecutionGraph) (r x : Event)
    → ((q w : Event) → same x w ≡ true → is_listed g q w ≡ false)
    → ((s : Bool) → f false s ≡ false)
    → Edits f g g r x
none_listed f g r x h k q w = elim (Bool-cases (same x w)) [
  | inl y ↦ h q w y ∙ sym (rw (y, h q w y) (k (same q r)))
  | inr n ↦ sym (rw n refl)
]

-- The position is of a label with the role, and is not the initializer's.
unread :
    (g : ExecutionGraph) (x : Event) (role : Role)
    → role_at g x ≡ some role
    → IsOther role
    → is_initializer x ≡ false
    → (q w : Event) → same x w ≡ true
    → is_listed g q w ≡ false
unread g x role e is n q w y =
    listed_other g q w role (subst (λ u. role_at g u ≡ some role) (same_iff x w y) e) is
      (subst (λ u. is_initializer u ≡ false) (same_iff x w y) n)

detach_from-IsDetached :
    (g : ExecutionGraph) (a : AAccess) (r x : Event) (role : Role)
    → role_at g x ≡ some role
    → access_in (role_at g r) ≡ some a
    → WriteOrOther role
    → IsDetached g (detach_from g a r x role) r x
unfolding detach_from remove_init_rf init_readers
detach_from-IsDetached g a r x role e h (a_write k m v at rs) = (
  change_readers-Keeps (remove_if (λ f. same f r)) g x,
  write_edit gone (remove_if (λ f. same f r)) g r x k m v at rs e (λ q. has_event-remove_if r q rs),
)
detach_from-IsDetached g a r x role e h (an_other is) = elim (Bool-cases (is_initializer x)) [
  | inl y ↦
      subst (λ u. IsDetached g u r x) (sym (is.0 g a r x ∙ rw y refl))
        (
          init_rfs-Keeps g (
              put_loc g.init_rfs (align (AAccess.addr a))
                (remove_if (λ f. same f r) (init_readers g a))),
          init_edit gone g a r x (remove_if (λ f. same f r) (init_readers g a)) role e is y h
              (λ b. ground arith) (λ q. has_event-remove_if r q (init_readers g a)),
        )
  | inr n ↦
      subst (λ u. IsDetached g u r x) (sym (is.0 g a r x ∙ rw n refl))
        (Keeps-refl g, none_listed gone g r x (unread g x role e is n) (λ s. refl))
]

pub detach-IsDetached :
    (g : ExecutionGraph) (a : AAccess) (r x : Event)
    → access_in (role_at g r) ≡ some a
    → IsDetached g (detach g a r x) r x
unfolding role_at detach
detach-IsDetached g a r x h = elim (Option-cases (get_event_label g x)) [
  | inl e ↦
      let missing : role_at g x ≡ none = rw e refl in
      let unchanged : detach g a r x ≡ g = rw (e, detach) refl in
      subst (λ u. IsDetached g u r x) (sym unchanged)
        (
          Keeps-refl g,
          none_listed gone g r x
              (λ q w y.
                listed_none g q w (subst (λ u. role_at g u ≡ none) (same_iff x w y) missing))
              (λ s. refl),
        )
  | inr p ↦
      let found : role_at g x ≡ some (EventLabel.role p.0) = rw p.1 refl in
      let changed : detach g a r x ≡ detach_from g a r x (EventLabel.role p.0) =
        rw (p.1, detach) refl in
      subst (λ u. IsDetached g u r x) (sym changed)
        (detach_from-IsDetached g a r x (EventLabel.role p.0) found h
          (write_or_other (EventLabel.role p.0)))
]

-- The effect of adding a read to the readers of `x`.
abbrev pub IsAttached : ExecutionGraph → Option ExecutionGraph → Event → Event → Type 0
IsAttached g o r x = (h : ExecutionGraph) × (o ≡ some h) × Keeps g h × Edits come g h r x

not_overlapping :
    (g : ExecutionGraph) (a : AAccess) (r : Event) (es : List Event)
    → has_event r es ≡ false
    → is_overlapping g a r es ≡ false
unfolding has_event is_overlapping
not_overlapping g a r [] h = refl
not_overlapping g a r (e ∷ es) h = ground (arith, h, not_overlapping g a r es)

attach_to-IsAttached :
    (g : ExecutionGraph) (a : AAccess) (r x : Event) (role : Role)
    → role_at g x ≡ some role
    → access_in (role_at g r) ≡ some a
    → is_target (some role) x ≡ true
    → is_listed g r x ≡ false
    → WriteOrOther role
    → IsAttached g (attach_to g a r x role) r x
unfolding attach_to add_init_rf init_readers
attach_to-IsAttached g a r x role e h t l (a_write k m v at rs) = (
  change_role (change_readers (λ es. es ++ r ∷ [])) g x,
  rw (sym (listed_write g r x k m v at rs e) ∙ l) refl,
  change_readers-Keeps (λ es. es ++ r ∷ []) g x,
  write_edit come (λ es. es ++ r ∷ []) g r x k m v at rs e (λ q. has_event-append r q rs),
)
attach_to-IsAttached g a r x role e h t l (an_other is) =
    let y : is_initializer x ≡ true = sym (is.3 x) ∙ t in
    let absent : has_event r (init_readers g a) ≡ false =
      sym (listed_init g r x role a y e is h) ∙ l in
    let fs = init_readers g a ++ r ∷ [] in
    let m = put_loc g.init_rfs (align (AAccess.addr a)) fs in
    (
      record g { init_rfs = m },
      is.1 g a r x ∙ rw (y, not_overlapping g a r (init_readers g a) absent) refl,
      init_rfs-Keeps g m,
      init_edit come g a r x fs role e is y h (λ b. ground arith)
          (λ q. has_event-append r q (init_readers g a)),
    )

pub attach-IsAttached :
    (g : ExecutionGraph) (a : AAccess) (r x : Event)
    → access_in (role_at g r) ≡ some a
    → is_target (role_at g x) x ≡ true
    → is_listed g r x ≡ false
    → IsAttached g (attach g a r x) r x
unfolding attach role_at is_target
attach-IsAttached g a r x h t l = elim (Option-cases (get_event_label g x)) [
  | inl e ↦ absurd (ground (arith, t, e))
  | inr p ↦
      let found : role_at g x ≡ some (EventLabel.role p.0) = rw p.1 refl in
      let run : attach g a r x ≡ attach_to g a r x (EventLabel.role p.0) = rw p.1 refl in
      subst (λ o. IsAttached g o r x) (sym run)
        (attach_to-IsAttached g a r x (EventLabel.role p.0) found h
          (sym (ap (λ o. is_target o x) found) ∙ t) l (write_or_other (EventLabel.role p.0)))
]
