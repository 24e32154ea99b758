-- ===== src/SExpr/Transform.antt =====
-- src/SExprVisitor.hpp and src/SExprVisitor.tcc: expressions over other registers (`SExprTransformer`).
-- The code of a cast is that of the evaluator, which answers the kid alone.
use mathlib.Core.Path.{fun_ext}
use rustmc.Prelude.{ℕ, ◌≡◌, refl, Option, Bool}
use rustmc.SVal.{SVal}
use rustmc.SExpr.{
  SExpr, Kids, nil, cons, concrete, register, select, logical, negation, cast, arithmetic,
  comparison, LogicalOp,
}
use rustmc.SExpr.Meaning.{meaning, meaning_kids}

unfoldable mutual
  pub transform : (ℕ → ℕ) → SExpr → SExpr
  transform fun (concrete w v) = concrete w v
  transform fun (register w reg name) = register w (fun reg) name
  transform fun (select w c t f) = select w (transform fun c) (transform fun t) (transform fun f)
  transform fun (logical op e es) = logical op (transform fun e) (transform_kids fun es)
  transform fun (negation e) = negation (transform fun e)
  transform fun (cast op w e) = transform fun e
  transform fun (arithmetic op w l r) = arithmetic op w (transform fun l) (transform fun r)
  transform fun (comparison op l r) = comparison op (transform fun l) (transform fun r)

  transform_kids : (ℕ → ℕ) → Kids → Kids
  transform_kids fun nil = nil
  transform_kids fun (cons e es) = cons (transform fun e) (transform_kids fun es)

mutual
  unfolding transform meaning

  visited :
      (env : ℕ → Option SVal) (fun : ℕ → ℕ) (e : SExpr)
      → meaning env (transform fun e) ≡ meaning (λ reg. env (fun reg)) e
  visited env fun (concrete w v) = refl
  visited env fun (register w reg name) = refl
  visited env fun (select w c t f) =
      rw (visited env fun c, visited env fun t, visited env fun f) refl
  visited env fun (logical op e es) =
      rw (visited env fun e, fun_ext (λ b. visited_kids env fun op b es)) refl
  visited env fun (negation e) = refl
  visited env fun (cast op w e) = visited env fun e
  visited env fun (arithmetic op w l r) = rw (visited env fun l, visited env fun r) refl
  visited env fun (comparison op l r) = rw (visited env fun l, visited env fun r) refl

  visited_kids :
      (env : ℕ → Option SVal) (fun : ℕ → ℕ) (op : LogicalOp) (b : Bool) (es : Kids)
      → meaning_kids env op b (transform_kids fun es) ≡ meaning_kids (λ reg. env (fun reg)) op b es
  visited_kids env fun op b nil = refl
  visited_kids env fun op b (cons e es) =
      rw (visited env fun e, fun_ext (λ b. visited_kids env fun op b es)) refl

-- A transformed expression means what the original means when each register has the value of the register
-- that it is renamed to.
pub meaning-transform :
    (env : ℕ → Option SVal) (fun : ℕ → ℕ) (e : SExpr)
    → meaning env (transform fun e) ≡ meaning (λ reg. env (fun reg)) e
meaning-transform env fun e = visited env fun e
