-- ===== src/SExpr/Replace.antt =====
-- src/SExprVisitor.hpp: the replacement of registers, by a given expression (`SExprRegSubstitutor`) or
-- by the constants of a map (`SExprConcretizer`). The two visitors share their loop over the kids, so
-- `contents` is what stands for a register, if it is replaced.
use Prim.Native.String.{String}
use mathlib.Core.Path.{fun_ext}
use rustmc.Prelude.{
  ℕ, ◌≡◌, refl, sym, ap, ◌∙◌, Option, none, some, ◌>>=◌, if◌then◌else◌, ◌==◌, Bool, true, false,
}
use rustmc.SVal.{SVal}
use rustmc.SExpr.{
  SExpr, Kids, nil, cons, concrete, register, select, logical, negation, cast, arithmetic,
  comparison, LogicalOp, create_arithmetic,
}
use rustmc.SExpr.Clone.{clone, clone_kids}
use rustmc.SExpr.Evaluate.{Evaluator, VMap, value_or_42, evaluate}
use rustmc.SExpr.Meaning.Values.{evaluate-meaning}
use rustmc.SExpr.Meaning.{meaning, meaning_kids}

-- What the loop leaves in the place of a kid.
at_kid : (ℕ → Option SExpr) → SExpr → SExpr
at_kid contents (register w reg name) = elim (contents reg) [
  | none ↦ register w reg name
  | some r ↦ r
]
at_kid contents e = e

-- A kid is visited first, and what replaces it is not visited.
mutual
  unfolding at_kid

  visit_expr : (ℕ → Option SExpr) → SExpr → SExpr
  visit_expr contents (concrete w v) = concrete w v
  visit_expr contents (register w reg name) = register w reg name
  visit_expr contents (select w c t f) =
      select w (at_kid contents (visit_expr contents c)) (at_kid contents (visit_expr contents t))
        (at_kid contents (visit_expr contents f))
  visit_expr contents (logical op e es) =
      logical op (at_kid contents (visit_expr contents e)) (visit_exprs contents es)
  visit_expr contents (negation e) = negation (at_kid contents (visit_expr contents e))
  visit_expr contents (cast op w e) = cast op w (at_kid contents (visit_expr contents e))
  visit_expr contents (arithmetic op w l r) =
      arithmetic op w (at_kid contents (visit_expr contents l))
        (at_kid contents (visit_expr contents r))
  visit_expr contents (comparison op l r) =
      comparison op (at_kid contents (visit_expr contents l))
        (at_kid contents (visit_expr contents r))

  visit_exprs : (ℕ → Option SExpr) → Kids → Kids
  visit_exprs contents nil = nil
  visit_exprs contents (cons e es) =
      cons (at_kid contents (visit_expr contents e)) (visit_exprs contents es)

-- A copy that is a register itself is replaced as a whole, or else visited.
replace : (ℕ → Option SExpr) → SExpr → SExpr
unfolding visit_expr
replace contents (register w reg name) = elim (contents reg) [
  | none ↦ visit_expr contents (register w reg name)
  | some r ↦ r
]
replace contents e = visit_expr contents e

-- The copy of the expression to put in, at the register to replace.
abbrev replace_expr : ℕ → SExpr → ℕ → Option SExpr
replace_expr reg r x = if x == reg then some (clone r) else none

-- The constant to put in, with the size as its width, at a register that the map has.
abbrev replace_val : (ℕ → Option (SVal × ℕ)) → ℕ → Option SExpr
replace_val m x = m x >>= λ p. some (concrete p.1 p.0)

pub substitute : SExpr → ℕ → SExpr → SExpr
unfolding replace clone
substitute orig reg r = replace (replace_expr reg r) (clone orig)

pub concretize : SExpr → (ℕ → Option (SVal × ℕ)) → SExpr
unfolding replace clone
concretize orig m = replace (replace_val m) (clone orig)

-- The value that a register has once it stands for its contents.
abbrev through : (ℕ → Option SExpr) → (ℕ → Option SVal) → ℕ → Option SVal
through contents env reg = elim (contents reg) [ none ↦ env reg | some r ↦ meaning env r ]

mutual
  unfolding clone meaning create_arithmetic

  meaning-clone : (env : ℕ → Option SVal) (e : SExpr) → meaning env (clone e) ≡ meaning env e
  meaning-clone env (concrete w v) = refl
  meaning-clone env (register w reg name) = refl
  meaning-clone env (select w c t f) =
      rw (meaning-clone env c, meaning-clone env t, meaning-clone env f) refl
  meaning-clone env (logical op e es) =
      rw (meaning-clone env e, fun_ext (λ b. meaning_kids-clone env op b es)) refl
  meaning-clone env (negation e) = refl
  meaning-clone env (cast op w e) = meaning-clone env e
  meaning-clone env (arithmetic op w l r) = rw (meaning-clone env l, meaning-clone env r) refl
  meaning-clone env (comparison op l r) = rw (meaning-clone env l, meaning-clone env r) refl

  meaning_kids-clone :
      (env : ℕ → Option SVal) (op : LogicalOp) (b : Bool) (es : Kids)
      → meaning_kids env op b (clone_kids es) ≡ meaning_kids env op b es
  meaning_kids-clone env op b nil = refl
  meaning_kids-clone env op b (cons e es) =
      rw (meaning-clone env e, fun_ext (λ b. meaning_kids-clone env op b es)) refl

module _ (contents : ℕ → Option SExpr) (env : ℕ → Option SVal) where
  meaning-contents :
      (o : Option SExpr) (w reg : ℕ) (name : String)
      → meaning env (elim o [ none ↦ register w reg name | some r ↦ r ])
        ≡ elim o [ none ↦ env reg | some r ↦ meaning env r ]
  unfolding meaning
  meaning-contents none w reg name = refl
  meaning-contents (some r) w reg name = refl

  mutual
    unfolding visit_expr at_kid meaning

    meaning-at_kid :
        (e : SExpr)
        → meaning env (at_kid contents (visit_expr contents e)) ≡ meaning (through contents env) e
    meaning-at_kid (concrete w v) = refl
    meaning-at_kid (register w reg name) = meaning-contents (contents reg) w reg name
    meaning-at_kid (select w c t f) = rw (meaning-at_kid c, meaning-at_kid t, meaning-at_kid f) refl
    meaning-at_kid (logical op e es) =
        rw (meaning-at_kid e, fun_ext (λ b. meaning-visit_exprs op b es)) refl
    meaning-at_kid (negation e) = refl
    meaning-at_kid (cast op w e) = meaning-at_kid e
    meaning-at_kid (arithmetic op w l r) = rw (meaning-at_kid l, meaning-at_kid r) refl
    meaning-at_kid (comparison op l r) = rw (meaning-at_kid l, meaning-at_kid r) refl

    meaning-visit_exprs :
        (op : LogicalOp) (b : Bool) (es : Kids)
        → meaning_kids env op b (visit_exprs contents es)
          ≡ meaning_kids (through contents env) op b es
    meaning-visit_exprs op b nil = refl
    meaning-visit_exprs op b (cons e es) =
        rw (meaning-at_kid e, fun_ext (λ b. meaning-visit_exprs op b es)) refl

  replace-at_kid : (e : SExpr) → replace contents e ≡ at_kid contents (visit_expr contents e)
  unfolding replace visit_expr at_kid
  replace-at_kid (concrete w v) = refl
  replace-at_kid (register w reg name) = refl
  replace-at_kid (select w c t f) = refl
  replace-at_kid (logical op e es) = refl
  replace-at_kid (negation e) = refl
  replace-at_kid (cast op w e) = refl
  replace-at_kid (arithmetic op w l r) = refl
  replace-at_kid (comparison op l r) = refl

  meaning-replace :
      (e : SExpr) → meaning env (replace contents (clone e)) ≡ meaning (through contents env) e
  meaning-replace e =
      ap (meaning env) (replace-at_kid (clone e))
      ∙ meaning-at_kid (clone e)
      ∙ meaning-clone (through contents env) e

through-copy :
    (env : ℕ → Option SVal) (r : SExpr) (b : Bool) (x : ℕ)
    → elim (if b then some (clone r) else none) [ none ↦ env x | some r ↦ meaning env r ]
      ≡ (if b then meaning env r else env x)
through-copy env r true x = meaning-clone env r
through-copy env r false x = refl

through-constant :
    (env : ℕ → Option SVal) (o : Option (SVal × ℕ)) (x : ℕ)
    → elim (o >>= λ p. some (concrete p.1 p.0)) [ none ↦ env x | some r ↦ meaning env r ]
      ≡ elim o [ none ↦ env x | some p ↦ some p.0 ]
unfolding meaning
through-constant env none x = refl
through-constant env (some p) x = refl

-- The substitution of an expression for a register means what the original means when the register has
-- the expression's value.
pub meaning-substitute :
    (env : ℕ → Option SVal) (e : SExpr) (reg : ℕ) (r : SExpr)
    → meaning env (substitute e reg r) ≡ meaning (λ x. if x == reg then meaning env r else env x) e
unfolding substitute
meaning-substitute env e reg r =
    meaning-replace (replace_expr reg r) env e
    ∙ ap (λ env. meaning env e) (fun_ext (λ x. through-copy env r (x == reg) x))

-- Concretization by a map means what the original means when the registers of the map have its values.
meaning-concretize :
    (env : ℕ → Option SVal) (e : SExpr) (m : ℕ → Option (SVal × ℕ))
    → meaning env (concretize e m)
      ≡ meaning (λ x. elim (m x) [ none ↦ env x | some p ↦ some p.0 ]) e
unfolding concretize meaning
meaning-concretize env e m =
    meaning-replace (replace_val m) env e
    ∙ ap (λ env. meaning env e) (fun_ext (λ x. through-constant env (m x) x))

through-map :
    (k : VMap) (o : Option (SVal × ℕ)) (x : ℕ)
    → elim o [ none ↦ some (value_or_42 (k x)) | some p ↦ some p.0 ]
      ≡ some (value_or_42 (elim o [ none ↦ k x | some p ↦ some p.0 ]))
through-map k none x = refl
through-map k (some p) x = refl

-- The evaluation by a map of an expression that was concretized answers the value that the evaluation of
-- the original answers by the two maps together, the one that was concretized first.
pub evaluate-concretize :
    (s : Evaluator) (e : SExpr) (m : ℕ → Option (SVal × ℕ)) (k : VMap)
    → s.brute_force ≡ false
    → (evaluate s (concretize e m) k >>= λ r. some r.0)
      ≡ evaluate s e (λ x. elim (m x) [ none ↦ k x | some p ↦ some p.0 ]) >>= λ r. some r.0
evaluate-concretize s e m k h =
    evaluate-meaning s (concretize e m) k h
    ∙ meaning-concretize (λ x. some (value_or_42 (k x))) e m
    ∙ ap (λ env. meaning env e) (fun_ext (λ x. through-map k (m x) x))
    ∙ sym (evaluate-meaning s e (λ x. elim (m x) [ none ↦ k x | some p ↦ some p.0 ]) h)
