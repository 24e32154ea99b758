-- ===== src/Examples/Expressions.antt =====
-- Runs of src/SExpr.hpp and src/SExprVisitor.hpp on small expressions.
use rustmc.Prelude.{ℕ, ◌≡◌, refl, none, some, [], ◌==◌, if◌then◌else◌, ◌>>=◌, false, arith}
use rustmc.SVal.{SVal, apply, get_bool}
use rustmc.SExpr.{
  SExpr, concrete, register, arithmetic, comparison, cast, negation, ArithmeticOp, CmpOp, CastOp,
}
use rustmc.SExpr.Clone.{clone}
use rustmc.SExpr.Evaluate.{Evaluator, VMap, value_or_42, evaluate}
use rustmc.SExpr.Meaning.Semantics.{value_of, is_plain}
use rustmc.SExpr.Meaning.Semantics.Agreement.{evaluate-value_of, evaluate_known-value_of}
use rustmc.SExpr.Transform.{transform}

-- (r1 + 5) == 12
abbrev sum : SExpr
sum = arithmetic ArithmeticOp.add 32 (register 32 1 "a") (concrete 32 5)

abbrev guard : SExpr
guard = comparison CmpOp.eq sum (concrete 32 12)

abbrev seven : VMap
seven reg = if reg == 1 then some 7 else none

abbrev fresh : Evaluator
fresh = record { value_mapping = none; val = 0; brute_force = false; unknown = [] }

abbrev after : Evaluator
after = record { value_mapping = some seven; val = 0; brute_force = false; unknown = [] }

guard_holds : evaluate fresh guard seven ≡ some (1, 0, after)
unfolding evaluate apply rustmc.SVal.eq
guard_holds = refl

clone_resizes :
    clone (arithmetic ArithmeticOp.add 8 (concrete 32 1) (concrete 32 1))
    ≡ arithmetic ArithmeticOp.add 32 (concrete 32 1) (concrete 32 1)
unfolding clone
clone_resizes = refl

evaluate-value_of_example :
    (evaluate fresh guard seven >>= λ r. some r.0)
    ≡ value_of (λ reg. some (value_or_42 (seven reg))) guard
unfolding is_plain
evaluate-value_of_example = evaluate-value_of fresh guard seven refl refl

seven_is_seven : (reg : ℕ) (a : SVal) → seven reg ≡ some a → some 7 ≡ some a
seven_is_seven reg a h = ground (arith, h)

evaluate_known-value_of_example : value_of (λ reg. some 7) guard ≡ some 1
unfolding is_plain
evaluate_known-value_of_example =
    evaluate_known-value_of fresh guard seven (λ reg. some 7) 1 after refl refl seven_is_seven
      guard_holds

casts_are_dropped : transform (λ reg. reg) (cast CastOp.z_ext 64 (concrete 32 1)) ≡ concrete 32 1
unfolding transform
casts_are_dropped = refl

negation_is_false : (evaluate fresh (negation (concrete 1 0)) seven >>= λ r. some r.0) ≡ some 0
unfolding evaluate
negation_is_false = refl

remainder_divides :
    (evaluate fresh (arithmetic ArithmeticOp.u_rem 32 (concrete 32 7) (concrete 32 2)) seven
      >>= λ r. some r.0)
    ≡ some 3
unfolding evaluate apply
remainder_divides = refl
