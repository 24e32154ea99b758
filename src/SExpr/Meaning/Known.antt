-- ===== src/SExpr/Meaning/Known.antt =====
-- src/SExprVisitor.hpp: evaluations that meet no unknown register.
use mathlib.Core.Path.{ap₂}
use mathlib.Core.Option.{some-injective, none-ne-some}
use rustmc.VSet.Single.{length-insert-pos}
use rustmc.Prelude.{
  ℕ, ◌≡◌, refl, ap, ◌∙◌, Bool, true, false, Option, none, some, ◌>>=◌, if◌then◌else◌, [], ◌∷◌,
  Option-cases, inl, inr, length, arith,
}
use rustmc.VSet.{VSet, insert}
use rustmc.SVal.{SVal, get_bool}
use rustmc.SExpr.{
  SExpr, Kids, nil, cons, concrete, register, select, logical, negation, cast, arithmetic,
  comparison, LogicalOp,
}
use rustmc.SExpr.Evaluate.{
  Evaluator, VMap, known_mapping, get_mapping_for, of_bool, apply_arithmetic, apply_cmp, ends,
  visit_register, visit, visit_kids, evaluate, finish,
}
use rustmc.SExpr.Meaning.{meaning, meaning_kids}

-- `o` can end with no unknown register only from an empty set, and then its value is that of `m`.
abbrev Known : Option (SVal × VSet) → VSet → Option SVal → Type 0
Known o u m = (v : SVal) → o ≡ some (v, []) → (u ≡ []) × (m ≡ some v)

Known-bind :
    (u : VSet) (o : Option (SVal × VSet)) (m : Option SVal) (f : SVal × VSet → Option (SVal × VSet))
    (g : SVal → Option SVal)
    → Known o u m
    → ((p : SVal × VSet) → Known (f p) p.1 (g p.0))
    → Known (o >>= f) u (m >>= g)
Known-bind u none m f g h k v e = absurd (none-ne-some _ e)
Known-bind u (some p) m f g h k v e =
    let last = k p v e in
    let before = h p.0 (ap (λ t. some (p.0, t)) last.0) in
    (before.0, ap (λ t. t >>= g) before.1 ∙ last.1)

Known-if :
    (b : Bool) (u : VSet) (x y : Option (SVal × VSet)) (m n : Option SVal)
    → Known x u m
    → Known y u n
    → Known (if b then x else y) u (if b then m else n)
Known-if true u x y m n h k = h
Known-if false u x y m n h k = k

Known-some : (w : SVal) (u : VSet) → Known (some (w, u)) u (some w)
Known-some w u v e =
    (ap (λ p. p.1) (some-injective _ _ e), ap (λ p. some p.0) (some-injective _ _ e))

Known-answer : (o : Option SVal) (u : VSet) → Known (o >>= λ w. some (w, u)) u o
Known-answer none u v e = absurd (none-ne-some _ e)
Known-answer (some w) u v e = Known-some w u v e

grown : (u : VSet) (reg : ℕ) → ¬ (length (insert u reg).0 ≡ 0)
grown u reg h = omega (arith, h, length-insert-pos u reg)

length-zero : (u : VSet) → length u ≡ 0 → u ≡ []
length-zero [] h = refl
length-zero (x ∷ u) h = absurd (omega (arith, h))

-- An evaluation that reports no unknown register ends with the empty set.
unfinish :
    (s s' : Evaluator) (o : Option (SVal × VSet)) (w : SVal)
    → (o >>= λ p. some (finish s p)) ≡ some (w, 0, s')
    → o ≡ some (w, [])
unfolding finish
unfinish s s' none w h = absurd (none-ne-some _ h)
unfinish s s' (some p) w h =
    let same = some-injective _ _ h in
    ap some (
      ap₂ (λ (a : SVal) (u : VSet). (a, u)) (ap (λ r. r.0) same)
        (length-zero p.1 (ap (λ r. r.1) same)))

module _ (s : Evaluator) (env : ℕ → Option SVal) (mapped : s.brute_force ≡ false)
    (agree : (reg : ℕ) (w : SVal)
      → known_mapping s.value_mapping reg ≡ some w
      → env reg ≡ some w) where
  Known-register : (reg : ℕ) (u : VSet) → Known (some (visit_register s reg u)) u (env reg)
  unfolding visit_register get_mapping_for
  Known-register reg u = elim (Option-cases (known_mapping s.value_mapping reg)) [
    | inl e ↦ λ v.
        rw (mapped, e) (λ h. absurd (grown u reg (ap (λ p. length p.1) (some-injective _ _ h))))
    | inr e ↦ λ v. rw (mapped, e.1, agree reg e.0 e.1) (Known-some e.0 u v)
  ]

  mutual
    unfolding visit meaning

    Known-visit : (e : SExpr) (u : VSet) → Known (visit s e u) u (meaning env e)
    Known-visit (concrete w v) u = Known-some v u
    Known-visit (register w reg name) u = Known-register reg u
    Known-visit (select w c t f) u =
        Known-bind u _ _ _ _ (Known-visit c u)
          (λ p. Known-if (get_bool p.0) p.1 _ _ _ _ (Known-visit t p.1) (Known-visit f p.1))
    Known-visit (logical op e es) u = Known-bind u _ _ _ _ (Known-visit e u) (λ p.
        Known-if (ends op (get_bool p.0)) p.1 _ _ _ _ (Known-some (of_bool (get_bool p.0)) p.1)
          (Known-visit_kids op (get_bool p.0) es p.1))
    Known-visit (negation e) u = Known-some 0 u
    Known-visit (cast op w e) u = Known-visit e u
    Known-visit (arithmetic op w l r) u = Known-bind u _ _ _ _ (Known-visit l u) (λ p.
        Known-bind p.1 _ _ _ _ (Known-visit r p.1)
          (λ q. Known-answer (apply_arithmetic op p.0 q.0) q.1))
    Known-visit (comparison op l r) u = Known-bind u _ _ _ _ (Known-visit l u) (λ p.
        Known-bind p.1 _ _ _ _ (Known-visit r p.1)
          (λ q. Known-some (of_bool (apply_cmp op p.0 q.0)) q.1))

    Known-visit_kids :
        (op : LogicalOp) (last : Bool) (es : Kids) (u : VSet)
        → Known (visit_kids s op last es u) u (meaning_kids env op last es)
    Known-visit_kids op last nil u = Known-some (of_bool last) u
    Known-visit_kids op last (cons e es) u = Known-bind u _ _ _ _ (Known-visit e u) (λ p.
        Known-if (ends op (get_bool p.0)) p.1 _ _ _ _ (Known-some (of_bool (get_bool p.0)) p.1)
          (Known-visit_kids op (get_bool p.0) es p.1))

-- When an evaluation by a map reports no unknown register, its value is what the expression means under
-- every assignment that extends the map.
pub evaluate-known :
    (s : Evaluator) (e : SExpr) (m : VMap) (env : ℕ → Option SVal) (w : SVal) (s' : Evaluator)
    → s.brute_force ≡ false
    → ((reg : ℕ) (a : SVal) → m reg ≡ some a → env reg ≡ some a)
    → evaluate s e m ≡ some (w, 0, s')
    → meaning env e ≡ some w
unfolding evaluate known_mapping
evaluate-known s e m env w s' h agree run =
    let during : Evaluator = record s { value_mapping = some m } in
    (Known-visit during env h agree e s.unknown w
      (unfinish during s' (visit during e s.unknown) w run)).1
