-- ===== src/SExpr/Meaning/Brute.antt =====
-- src/SExprVisitor.hpp: evaluation with one value for all registers.
use rustmc.Prelude.{
  ◌≡◌, refl, ap, ◌∙◌, Bool, true, false, Option, none, some, ◌>>=◌, if◌then◌else◌, [], length,
}
use rustmc.VSet.{VSet}
use rustmc.SVal.{SVal, get_bool}
use rustmc.SExpr.{
  SExpr, Kids, nil, cons, concrete, register, select, logical, negation, cast, arithmetic,
  comparison, LogicalOp,
}
use rustmc.SExpr.Evaluate.{
  Evaluator, ends, visit_register, visit, visit_kids, evaluate_with, finish,
}
use rustmc.SExpr.Meaning.{meaning, meaning_kids}

-- A value found without a change of the set.
abbrev beside : VSet → Option SVal → Option (SVal × VSet)
beside u m = m >>= λ v. some (v, u)

beside-bind :
    (u : VSet) (o : Option (SVal × VSet)) (m : Option SVal) (f : SVal × VSet → Option (SVal × VSet))
    (g : SVal → Option SVal)
    → o ≡ beside u m
    → ((v : SVal) → f (v, u) ≡ beside u (g v))
    → (o >>= f) ≡ beside u (m >>= g)
beside-bind u o none f g h k = ap (λ t. t >>= f) h
beside-bind u o (some v) f g h k = ap (λ t. t >>= f) h ∙ k v

beside-if :
    (b : Bool) (u : VSet) (x y : Option (SVal × VSet)) (m n : Option SVal)
    → x ≡ beside u m
    → y ≡ beside u n
    → (if b then x else y) ≡ beside u (if b then m else n)
beside-if true u x y m n h k = h
beside-if false u x y m n h k = k

beside-then {ℓ} :
    {B : Type ℓ} (u : VSet) (m : Option SVal) (k : SVal × VSet → Option B)
    → (beside u m >>= k) ≡ (m >>= λ v. k (v, u))
beside-then u none k = refl
beside-then u (some v) k = refl

module _ (s : Evaluator) (brute : s.brute_force ≡ true) where
  mutual
    unfolding visit meaning visit_register

    visit-brute : (e : SExpr) (u : VSet) → visit s e u ≡ beside u (meaning (λ reg. some s.val) e)
    visit-brute (concrete w v) u = refl
    visit-brute (register w reg name) u = rw brute refl
    visit-brute (select w c t f) u =
        beside-bind u _ _ _ _ (visit-brute c u)
          (λ b. beside-if (get_bool b) u _ _ _ _ (visit-brute t u) (visit-brute f u))
    visit-brute (logical op e es) u = beside-bind u _ _ _ _ (visit-brute e u) (λ b.
        beside-if (ends op (get_bool b)) u _ _ _ _ refl (visit_kids-brute op (get_bool b) es u))
    visit-brute (negation e) u = refl
    visit-brute (cast op w e) u = visit-brute e u
    visit-brute (arithmetic op w l r) u =
        beside-bind u _ _ _ _ (visit-brute l u)
          (λ a. beside-bind u _ _ _ _ (visit-brute r u) (λ b. refl))
    visit-brute (comparison op l r) u =
        beside-bind u _ _ _ _ (visit-brute l u)
          (λ a. beside-bind u _ _ _ _ (visit-brute r u) (λ b. refl))

    visit_kids-brute :
        (op : LogicalOp) (last : Bool) (es : Kids) (u : VSet)
        → visit_kids s op last es u ≡ beside u (meaning_kids (λ reg. some s.val) op last es)
    visit_kids-brute op last nil u = refl
    visit_kids-brute op last (cons e es) u = beside-bind u _ _ _ _ (visit-brute e u) (λ b.
        beside-if (ends op (get_bool b)) u _ _ _ _ refl (visit_kids-brute op (get_bool b) es u))

-- Evaluation with one value for all registers answers what the expression means when each register has
-- that value, with no unknown register, and leaves the evaluator in the mode of a map.
pub evaluate_with-meaning :
    (s : Evaluator) (e : SExpr) (v : SVal)
    → evaluate_with s e v
      ≡ meaning (λ reg. some v) e >>= λ w.
          some (w, 0, record { value_mapping = none; val = v; brute_force = false; unknown = [] })
unfolding evaluate_with finish
evaluate_with-meaning s e v =
    ap
      (λ t. t >>= λ p. some (
        p.0,
        length p.1,
        record { value_mapping = none; val = v; brute_force = false; unknown = p.1 },
      ))
      (visit-brute (record { value_mapping = none; val = v; brute_force = true; unknown = [] }) refl
        e [])
    ∙ beside-then [] (meaning (λ reg. some v) e) _
