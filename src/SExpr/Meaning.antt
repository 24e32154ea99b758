-- ===== src/SExpr/Meaning.antt =====
-- src/SExprVisitor.hpp: what the evaluator answers, as a function of the values of the registers.
pub mod Values
pub mod Brute
pub mod Known
pub mod Semantics
use mathlib.Core.Path.{ap₂, fun_ext}
use mathlib.Core.Option.{some-injective, none-ne-some}
use rustmc.VSet.Single.{length-insert-pos}
use rustmc.Prelude.{
  ℕ, ◌≡◌, refl, sym, ap, ◌∙◌, Bool, true, false, Option, none, some, ◌>>=◌, if◌then◌else◌, List, [],
  ◌∷◌, Option-cases, Bool-cases, inl, inr, ltb, ◌==◌, length, arith,
}
use rustmc.VSet.{VSet, insert}
use rustmc.SVal.{SVal, get_bool}
use rustmc.SExpr.{
  SExpr, Kids, nil, cons, concrete, register, select, logical, negation, cast, arithmetic,
  comparison, LogicalOp,
}
use rustmc.SExpr.Evaluate.{
  Evaluator, VMap, known_mapping, get_mapping_for, of_bool, apply_arithmetic, apply_cmp, ends,
  visit_register, visit, visit_kids, evaluate_with, evaluate, finish,
}

-- The value of an expression where each register has the given value, or none.
unfoldable mutual
  unfolding ends apply_arithmetic apply_cmp of_bool

  pub meaning : (ℕ → Option SVal) → SExpr → Option SVal
  meaning env (concrete w v) = some v
  meaning env (register w reg name) = env reg
  meaning env (select w c t f) = meaning env c >>= λ b.
      let yes = meaning env t in let no = meaning env f in if get_bool b then yes else no
  meaning env (logical op e es) = meaning env e >>= λ b.
      let rest = meaning_kids env op (get_bool b) es in
      if ends op (get_bool b) then some (of_bool (get_bool b)) else rest
  meaning env (negation e) = some (of_bool false)
  meaning env (cast op w e) = meaning env e
  meaning env (arithmetic op w l r) =
      meaning env l >>= λ a. meaning env r >>= λ b. apply_arithmetic op a b
  meaning env (comparison op l r) =
      meaning env l >>= λ a. meaning env r >>= λ b. some (of_bool (apply_cmp op a b))

  pub meaning_kids : (ℕ → Option SVal) → LogicalOp → Bool → Kids → Option SVal
  meaning_kids env op last nil = some (of_bool last)
  meaning_kids env op last (cons e es) = meaning env e >>= λ b.
      let rest = meaning_kids env op (get_bool b) es in
      if ends op (get_bool b) then some (of_bool (get_bool b)) else rest
