-- ===== src/SExpr/Evaluate.antt =====
-- src/SExprVisitor.hpp: the evaluator of expressions (`SExprEvaluator`), which either gives every
-- register one value (`brute_force`) or looks registers up in a map and collects those that it lacks.
-- A visit writes no field but `unknown`, so it takes the fields and passes the set on. The answer
-- `none` stands for what C++ leaves undefined, see SVal.
use rustmc.Prelude.{ℕ, Bool, true, false, not, Option, none, some, ◌>>=◌, if◌then◌else◌, length, []}
use rustmc.VSet.{VSet, insert}
use rustmc.SVal.{
  SVal, apply, plus, minus, times, div, band, bor, bxor, shl, shr, get_bool, eq, ne, ult, ule, ugt,
  uge, slt, sle, sgt, sge,
}
use rustmc.SExpr.{
  SExpr, Kids, nil, cons, concrete, register, select, logical, negation, cast, arithmetic,
  comparison, LogicalOp, ArithmeticOp, CmpOp,
}

abbrev pub VMap : Type 0
VMap = ℕ → Option SVal

pub record Evaluator : Type 0 where
  pub value_mapping : Option VMap
  pub val : SVal
  pub brute_force : Bool
  pub unknown : VSet

-- The map's value, if there is a map and it has one.
unfoldable pub known_mapping : Option VMap → ℕ → Option SVal
known_mapping none reg = none
known_mapping (some m) reg = m reg

-- The value that stands for an unknown one.
abbrev pub value_or_42 : Option SVal → SVal
value_or_42 none = 42
value_or_42 (some v) = v

-- `hasKnownMapping` tells `some` from `none`.
unfoldable pub get_mapping_for : Evaluator → ℕ → SVal
unfolding known_mapping
get_mapping_for s reg = value_or_42 (known_mapping s.value_mapping reg)

unfoldable pub of_bool : Bool → SVal
of_bool b = if b then 1 else 0

-- The remainders divide, as the quotients do, and the signed operators are the unsigned ones.
unfoldable pub apply_arithmetic : ArithmeticOp → SVal → SVal → Option SVal
apply_arithmetic ArithmeticOp.add a b = apply plus a b
apply_arithmetic ArithmeticOp.sub a b = apply minus a b
apply_arithmetic ArithmeticOp.mul a b = apply times a b
apply_arithmetic ArithmeticOp.u_div a b = apply div a b
apply_arithmetic ArithmeticOp.s_div a b = apply div a b
apply_arithmetic ArithmeticOp.u_rem a b = apply div a b
apply_arithmetic ArithmeticOp.s_rem a b = apply div a b
apply_arithmetic ArithmeticOp.and a b = apply band a b
apply_arithmetic ArithmeticOp.or a b = apply bor a b
apply_arithmetic ArithmeticOp.xor a b = apply bxor a b
apply_arithmetic ArithmeticOp.shl a b = apply shl a b
apply_arithmetic ArithmeticOp.l_shr a b = apply shr a b
apply_arithmetic ArithmeticOp.a_shr a b = apply shr a b

unfoldable pub apply_cmp : CmpOp → SVal → SVal → Bool
apply_cmp CmpOp.eq a b = eq a b
apply_cmp CmpOp.ne a b = ne a b
apply_cmp CmpOp.ult a b = ult a b
apply_cmp CmpOp.ule a b = ule a b
apply_cmp CmpOp.ugt a b = ugt a b
apply_cmp CmpOp.uge a b = uge a b
apply_cmp CmpOp.slt a b = slt a b
apply_cmp CmpOp.sle a b = sle a b
apply_cmp CmpOp.sgt a b = sgt a b
apply_cmp CmpOp.sge a b = sge a b

-- Whether a kid of this truth value ends the loop over the kids: `all_of` stops at a false one,
-- `any_of` at a true one.
unfoldable pub ends : LogicalOp → Bool → Bool
ends LogicalOp.conjunction b = not b
ends LogicalOp.disjunction b = b

-- A register that is not mapped is put into the set.
abbrev note_unknown : Option SVal → ℕ → VSet → VSet
note_unknown none reg u = (insert u reg).0
note_unknown (some v) reg u = u

unfoldable pub visit_register : Evaluator → ℕ → VSet → SVal × VSet
unfolding get_mapping_for known_mapping
visit_register s reg u =
    if s.brute_force
    then (s.val, u)
    else (get_mapping_for s reg, note_unknown (known_mapping s.value_mapping reg) reg u)

-- A negation looks at the pointer to its kid, which is never null, and not at the kid's value.
unfoldable mutual
  unfolding visit_register ends apply_arithmetic apply_cmp of_bool

  pub visit : Evaluator → SExpr → VSet → Option (SVal × VSet)
  visit s (concrete w v) u = some (v, u)
  visit s (register w reg name) u = some (visit_register s reg u)
  visit s (select w c t f) u = visit s c u >>= λ p.
      let yes = visit s t p.1 in let no = visit s f p.1 in if get_bool p.0 then yes else no
  visit s (logical op e es) u = visit s e u >>= λ p.
      let rest = visit_kids s op (get_bool p.0) es p.1 in
      if ends op (get_bool p.0) then some (of_bool (get_bool p.0), p.1) else rest
  visit s (negation e) u = some (of_bool false, u)
  visit s (cast op w e) u = visit s e u
  visit s (arithmetic op w l r) u =
      visit s l u >>= λ p. visit s r p.1 >>= λ q. apply_arithmetic op p.0 q.0 >>= λ v. some (v, q.1)
  visit s (comparison op l r) u =
      visit s l u >>= λ p. visit s r p.1 >>= λ q. some (of_bool (apply_cmp op p.0 q.0), q.1)

  -- The kids that follow one of truth value `last`, which did not end the loop.
  pub visit_kids : Evaluator → LogicalOp → Bool → Kids → VSet → Option (SVal × VSet)
  visit_kids s op last nil u = some (of_bool last, u)
  visit_kids s op last (cons e es) u = visit s e u >>= λ p.
      let rest = visit_kids s op (get_bool p.0) es p.1 in
      if ends op (get_bool p.0) then some (of_bool (get_bool p.0), p.1) else rest

-- The value, the number of unknown registers, and the evaluator afterwards.
unfoldable pub finish : Evaluator → SVal × VSet → SVal × ℕ × Evaluator
finish s p = (p.0, length p.1, record s { unknown = p.1 })

unfoldable pub evaluate_with : Evaluator → SExpr → SVal → Option (SVal × ℕ × Evaluator)
unfolding visit finish
evaluate_with s e v =
    let during : Evaluator = record {
      value_mapping = none;
      val = v;
      brute_force = true;
      unknown = [];
    } in
    visit during e [] >>= λ p. some (finish (record during { brute_force = false }) p)

-- The set of unknown registers is kept from the evaluation before.
unfoldable pub evaluate : Evaluator → SExpr → VMap → Option (SVal × ℕ × Evaluator)
unfolding visit finish
evaluate s e m =
    let during : Evaluator = record s { value_mapping = some m } in
    visit during e s.unknown >>= λ p. some (finish during p)
