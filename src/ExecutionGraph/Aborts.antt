-- ===== src/ExecutionGraph/Aborts.antt =====
-- src/ExecutionGraph.cpp: when `changeRf` aborts.
use mathlib.Core.Option.{none-ne-some, some-injective}
use rustmc.Prelude.{
  ◌≡◌, refl, sym, subst, ◌∙◌, true, false, Bool-cases, Option-cases, inl, inr, List, [], ◌∷◌, ◌++◌,
  none, some, arith,
}
use rustmc.Event.{Event, same, is_initializer}
use rustmc.SAddr.{align}
use rustmc.MemAccess.{AAccess}
use rustmc.EventLabel.{EventLabel, Role, Rfs, read}
use rustmc.ExecutionGraph.{ExecutionGraph, get_event_label, has_event, put_loc}
use rustmc.ExecutionGraph.Change.{
  mem_in, set_rf, change_role, attach, attach_to, add_init_rf, init_readers, is_overlapping,
  detach_all, attach_all, stores_of, change_parts, change_rfs,
}
use rustmc.ExecutionGraph.Positions.{same_iff}
use rustmc.ExecutionGraph.Readers.{
  set_rf-access, access_in, role_at, has_store, is_target, Keeps, set_rf-target,
}
use rustmc.ExecutionGraph.Steps.{
  WriteOrOther, a_write, an_other, write_or_other, change_readers-Keeps, init_rfs-Keeps,
}
use rustmc.ExecutionGraph.Rewire.{detach_all-Keeps, stores_of-has}

add_init_rf-Keeps :
    (g h : ExecutionGraph) (a : AAccess) (r : Event) → add_init_rf g a r ≡ some h → Keeps g h
unfolding add_init_rf
add_init_rf-Keeps g h a r e = elim (Bool-cases (is_overlapping g a r (init_readers g a))) [
  | inl y ↦ absurd (ground (arith, y, e))
  | inr n ↦
      subst (Keeps g) (some-injective _ _ (sym (rw n refl) ∙ e)) (
        init_rfs-Keeps g (put_loc g.init_rfs (align (AAccess.addr a)) (init_readers g a ++ r ∷ [])))
]

attach_to-Keeps :
    (g h : ExecutionGraph) (a : AAccess) (r x : Event) (role : Role)
    → WriteOrOther role
    → attach_to g a r x role ≡ some h
    → Keeps g h
unfolding attach_to
attach_to-Keeps g h a r x role (a_write k m v at rs) e = elim (Bool-cases (has_event r rs)) [
  | inl y ↦ absurd (ground (arith, y, e))
  | inr n ↦
      subst (Keeps g) (some-injective _ _ (sym (rw n refl) ∙ e))
        (change_readers-Keeps (λ es. es ++ r ∷ []) g x)
]
attach_to-Keeps g h a r x role (an_other is) e = elim (Bool-cases (is_initializer x)) [
  | inl y ↦
      let run : add_init_rf g a r ≡ some h = sym (is.1 g a r x ∙ rw y refl) ∙ e in
      add_init_rf-Keeps g h a r run
  | inr n ↦ absurd (none-ne-some _ (sym (is.1 g a r x ∙ rw n refl) ∙ e))
]

attach-Keeps :
    (g h : ExecutionGraph) (a : AAccess) (r x : Event) → attach g a r x ≡ some h → Keeps g h
unfolding attach
attach-Keeps g h a r x e = elim (Option-cases (get_event_label g x)) [
  | inl n ↦ absurd (none-ne-some _ (sym (rw n refl) ∙ e))
  | inr p ↦
      attach_to-Keeps g h a r x (EventLabel.role p.0) (write_or_other (EventLabel.role p.0))
        (sym (rw p.1 refl) ∙ e)
]

attach_to_aborts :
    (g : ExecutionGraph) (a : AAccess) (r x : Event) (role : Role)
    → WriteOrOther role
    → is_target (some role) x ≡ false
    → attach_to g a r x role ≡ none
unfolding is_target
attach_to_aborts g a r x role (a_write k m v at rs) t = absurd (ground (arith, t))
attach_to_aborts g a r x role (an_other is) t = is.1 g a r x ∙ rw (sym (is.3 x) ∙ t) refl

attach_aborts :
    (g : ExecutionGraph) (a : AAccess) (r x : Event)
    → is_target (role_at g x) x ≡ false
    → attach g a r x ≡ none
unfolding attach role_at
attach_aborts g a r x t = elim (Option-cases (get_event_label g x)) [
  | inl n ↦ rw n refl
  | inr p ↦ rw p.1 (
      attach_to_aborts g a r x (EventLabel.role p.0) (write_or_other (EventLabel.role p.0))
        (sym (rw p.1 refl) ∙ t))
]

attach_all_aborts :
    (g : ExecutionGraph) (a : AAccess) (r w : Event) (ws : List Event)
    → has_event w ws ≡ true
    → is_target (role_at g w) w ≡ false
    → attach_all g a r ws ≡ none
unfolding attach_all has_event
attach_all_aborts g a r w [] y t = absurd (ground (arith, y))
attach_all_aborts g a r w (x ∷ ws) y t = elim (Bool-cases (same x w)) [
  | inl s ↦
      rw
        (attach_aborts g a r x
          (subst (λ u. is_target (role_at g u) u ≡ false) (sym (same_iff x w s)) t))
        refl
  | inr s ↦ elim (Option-cases (attach g a r x)) [
    | inl n ↦ rw n refl
    | inr p ↦ rw p.1 (
        attach_all_aborts p.0 a r w ws (ground (arith, y, s))
          ((attach-Keeps g p.0 a r x p.1 w).2 ∙ t))
  ]
]

change_parts_aborts :
    (g : ExecutionGraph) (r w : Event) (rfs : Rfs) (role : Role)
    → role_at g r ≡ some role
    → has_store w rfs ≡ true
    → is_target (role_at g w) w ≡ false
    → change_parts g r rfs role ≡ none
unfolding change_parts access_in mem_in has_event
change_parts_aborts g r w rfs (read k m old) e y t =
    let g1 = change_role (set_rf rfs) g r in
    let has_access : access_in (role_at g1 r) ≡ some m.access =
      set_rf-access rfs g r r ∙ rw e refl in
    attach_all_aborts (detach_all g1 m.access r old) m.access r w (stores_of [] rfs)
      (stores_of-has w [] rfs ∙ ground (arith, y))
      ((detach_all-Keeps g1 m.access r old has_access w).2 ∙ set_rf-target rfs g r w w ∙ t)
change_parts_aborts g r w rfs role e y t = refl

-- `changeRf` aborts when one of the given stores is neither a write of the graph nor the initializer.
pub change_rfs_aborts :
    (g : ExecutionGraph) (r w : Event) (rfs : Rfs)
    → has_store w rfs ≡ true
    → is_target (role_at g w) w ≡ false
    → change_rfs g r rfs ≡ none
unfolding change_rfs role_at
change_rfs_aborts g r w rfs y t = elim (Option-cases (get_event_label g r)) [
  | inl n ↦ rw n refl
  | inr p ↦ rw p.1 (change_parts_aborts g r w rfs (EventLabel.role p.0) (rw p.1 refl) y t)
]
