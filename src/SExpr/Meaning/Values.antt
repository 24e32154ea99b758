-- ===== src/SExpr/Meaning/Values.antt =====
-- src/SExprVisitor.hpp: the value that an evaluation by a map answers.
use mathlib.Core.Path.{fun_ext}
use rustmc.Prelude.{
  ℕ, ◌≡◌, refl, ap, ◌∙◌, Bool, true, false, Option, none, some, ◌>>=◌, if◌then◌else◌, Bool-cases,
  inl, inr,
}
use rustmc.VSet.{VSet}
use rustmc.SVal.{SVal, get_bool}
use rustmc.SExpr.{
  SExpr, Kids, nil, cons, concrete, register, select, logical, negation, cast, arithmetic,
  comparison, LogicalOp,
}
use rustmc.SExpr.Evaluate.{
  Evaluator, VMap, known_mapping, value_or_42, get_mapping_for, apply_arithmetic, ends,
  visit_register, visit, visit_kids, evaluate, finish,
}
use rustmc.SExpr.Meaning.{meaning, meaning_kids}

-- The values that an evaluator gives to the registers.
assignment : Evaluator → ℕ → Option SVal
assignment s reg = some (if s.brute_force then s.val else get_mapping_for s reg)

abbrev first : Option (SVal × VSet) → Option SVal
first none = none
first (some p) = some p.0

first-bind :
    (o : Option (SVal × VSet)) (m : Option SVal) (f : SVal × VSet → Option (SVal × VSet))
    (g : SVal → Option SVal)
    → first o ≡ m
    → ((p : SVal × VSet) → first (f p) ≡ g p.0)
    → first (o >>= f) ≡ (m >>= g)
first-bind none m f g h k = ap (λ t. t >>= g) h
first-bind (some p) m f g h k = k p ∙ ap (λ t. t >>= g) h

first-some : (o : Option SVal) (u : VSet) → first (o >>= λ v. some (v, u)) ≡ o
first-some none u = refl
first-some (some v) u = refl

first-if :
    (b : Bool) (x y : Option (SVal × VSet)) (m n : Option SVal)
    → first x ≡ m
    → first y ≡ n
    → first (if b then x else y) ≡ (if b then m else n)
first-if true x y m n h k = h
first-if false x y m n h k = k

first-register :
    (s : Evaluator) (reg : ℕ) (u : VSet) → some (visit_register s reg u).0 ≡ assignment s reg
unfolding visit_register assignment
first-register s reg u = elim (Bool-cases s.brute_force) [ inl b ↦ rw b refl | inr b ↦ rw b refl ]

first-finish :
    (s : Evaluator) (o : Option (SVal × VSet))
    → (o >>= (λ p. some (finish s p)) >>= λ r. some r.0) ≡ first o
unfolding finish
first-finish s none = refl
first-finish s (some p) = refl

mutual
  unfolding visit meaning

  first-visit :
      (s : Evaluator) (e : SExpr) (u : VSet) → first (visit s e u) ≡ meaning (assignment s) e
  first-visit s (concrete w v) u = refl
  first-visit s (register w reg name) u = first-register s reg u
  first-visit s (select w c t f) u =
      first-bind (visit s c u) _ _ _ (first-visit s c u)
        (λ p. first-if (get_bool p.0) _ _ _ _ (first-visit s t p.1) (first-visit s f p.1))
  first-visit s (logical op e es) u = first-bind (visit s e u) _ _ _ (first-visit s e u) (λ p.
      first-if (ends op (get_bool p.0)) _ _ _ _ refl (first-visit_kids s op (get_bool p.0) es p.1))
  first-visit s (negation e) u = refl
  first-visit s (cast op w e) u = first-visit s e u
  first-visit s (arithmetic op w l r) u = first-bind (visit s l u) _ _ _ (first-visit s l u) (λ p.
      first-bind (visit s r p.1) _ _ _ (first-visit s r p.1)
        (λ q. first-some (apply_arithmetic op p.0 q.0) q.1))
  first-visit s (comparison op l r) u =
      first-bind (visit s l u) _ _ _ (first-visit s l u)
        (λ p. first-bind (visit s r p.1) _ _ _ (first-visit s r p.1) (λ q. refl))

  first-visit_kids :
      (s : Evaluator) (op : LogicalOp) (last : Bool) (es : Kids) (u : VSet)
      → first (visit_kids s op last es u) ≡ meaning_kids (assignment s) op last es
  first-visit_kids s op last nil u = refl
  first-visit_kids s op last (cons e es) u =
      first-bind (visit s e u) _ _ _ (first-visit s e u) (λ p.
        first-if (ends op (get_bool p.0)) _ _ _ _ refl
          (first-visit_kids s op (get_bool p.0) es p.1))

assignment-mapped :
    (s : Evaluator) (m : VMap) (reg : ℕ)
    → s.brute_force ≡ false
    → s.value_mapping ≡ some m
    → assignment s reg ≡ some (value_or_42 (m reg))
unfolding assignment get_mapping_for known_mapping
assignment-mapped s m reg h e = rw (h, get_mapping_for, e) refl

-- Evaluation by a map answers what the expression means when a register has the map's value, and 42
-- when the map lacks it, whatever an evaluation before left in the evaluator.
pub evaluate-meaning :
    (s : Evaluator) (e : SExpr) (m : VMap)
    → s.brute_force ≡ false
    → (evaluate s e m >>= λ r. some r.0) ≡ meaning (λ reg. some (value_or_42 (m reg))) e
unfolding evaluate finish assignment get_mapping_for known_mapping
evaluate-meaning s e m h =
    let during : Evaluator = record s { value_mapping = some m } in
    first-finish during (visit during e s.unknown)
    ∙ first-visit during e s.unknown
    ∙ ap (λ env. meaning env e) (fun_ext (λ reg. assignment-mapped during m reg h refl))
