-- ===== src/SExpr/Meaning/Semantics.antt =====
-- src/SExprVisitor.hpp: what an expression means in 64-bit arithmetic, by the names of its operators.
pub mod Agreement
use Prim.Native.Nat.{bit_and, bit_or, bit_xor}
use rustmc.Prelude.{
  ℕ, ◌+◌, ◌-◌, ◌*◌, ◌/◌, ◌%◌, ◌^◌, ◌≡◌, refl, sym, ap, ◌∙◌, Bool, true, false, not, ◌&&◌, Option,
  none, some, ◌>>=◌, if◌then◌else◌, Option-cases, Bool-cases, inl, inr, ltb, leb, ◌==◌, ltℤ, arith,
}
use rustmc.VSet.{VSet}
use rustmc.SVal.{SVal, get_bool, get_signed, apply, eq, ne}
use rustmc.SVal.Order.{ult-ltb, ule-leb, ugt-ltb, uge-leb, slt-ltℤ, sle-ltℤ, sgt-ltℤ, sge-ltℤ}
use rustmc.SExpr.{
  SExpr, Kids, nil, cons, concrete, register, select, logical, negation, cast, arithmetic,
  comparison, LogicalOp, ArithmeticOp, CmpOp, CastOp,
}
use rustmc.SExpr.Evaluate.{
  Evaluator, VMap, value_or_42, of_bool, apply_arithmetic, apply_cmp, ends, evaluate,
}
use rustmc.SExpr.Meaning.{meaning, meaning_kids}
use rustmc.SExpr.Meaning.Known.{evaluate-known}
use rustmc.SExpr.Meaning.Values.{evaluate-meaning}

abbrev modulus : ℕ
modulus = 2 ^ 64

-- Signed quotients, remainders and shifts are left out.
result : ArithmeticOp → SVal → SVal → Option SVal
result ArithmeticOp.add a b = some ((a + b) % modulus)
result ArithmeticOp.sub a b = some ((a + modulus - b) % modulus)
result ArithmeticOp.mul a b = some (a * b % modulus)
result ArithmeticOp.u_div a b = if b == 0 then none else some (a / b)
result ArithmeticOp.u_rem a b = if b == 0 then none else some (a % b)
result ArithmeticOp.and a b = some (bit_and a b)
result ArithmeticOp.or a b = some (bit_or a b)
result ArithmeticOp.xor a b = some (bit_xor a b)
result ArithmeticOp.shl a b = if ltb b 64 then some (a * 2 ^ b % modulus) else none
result ArithmeticOp.l_shr a b = if ltb b 64 then some (a / 2 ^ b) else none
result op a b = none

relates : CmpOp → SVal → SVal → Bool
relates CmpOp.eq a b = a == b
relates CmpOp.ne a b = not (a == b)
relates CmpOp.ult a b = ltb a b
relates CmpOp.ule a b = leb a b
relates CmpOp.ugt a b = ltb b a
relates CmpOp.uge a b = leb b a
relates CmpOp.slt a b = ltℤ (get_signed a) (get_signed b)
relates CmpOp.sle a b = not (ltℤ (get_signed b) (get_signed a))
relates CmpOp.sgt a b = ltℤ (get_signed b) (get_signed a)
relates CmpOp.sge a b = not (ltℤ (get_signed a) (get_signed b))

-- The value of an expression, where it has one. A conjunction is false at its first false kid and a
-- disjunction true at its first true one, and the kids behind that have no say.
mutual
  unfolding result relates

  pub value_of : (ℕ → Option SVal) → SExpr → Option SVal
  value_of env (concrete w v) = some v
  value_of env (register w reg name) = env reg
  value_of env (select w c t f) = value_of env c >>= λ b.
      let yes = value_of env t in let no = value_of env f in if b == 0 then no else yes
  value_of env (logical LogicalOp.conjunction e es) =
      value_of env e >>= λ b. let rest = all_true env es in if b == 0 then some 0 else rest
  value_of env (logical LogicalOp.disjunction e es) =
      value_of env e >>= λ b. let rest = any_true env es in if b == 0 then rest else some 1
  value_of env (negation e) = value_of env e >>= λ b. some (if b == 0 then 1 else 0)
  value_of env (cast CastOp.z_ext w e) = value_of env e
  value_of env (cast CastOp.trunc w e) = value_of env e >>= λ v. some (v % 2 ^ w)
  value_of env (cast CastOp.s_ext w e) = none
  value_of env (arithmetic op w l r) = value_of env l >>= λ a. value_of env r >>= λ b. result op a b
  value_of env (comparison op l r) =
      value_of env l >>= λ a. value_of env r >>= λ b. some (if relates op a b then 1 else 0)

  all_true : (ℕ → Option SVal) → Kids → Option SVal
  all_true env nil = some 1
  all_true env (cons e es) =
      value_of env e >>= λ b. let rest = all_true env es in if b == 0 then some 0 else rest

  any_true : (ℕ → Option SVal) → Kids → Option SVal
  any_true env nil = some 0
  any_true env (cons e es) =
      value_of env e >>= λ b. let rest = any_true env es in if b == 0 then rest else some 1

-- The operators for which the evaluator computes what they mean: no remainder, and no operator that is to
-- be signed.
unfoldable pub is_plain_op : ArithmeticOp → Bool
is_plain_op ArithmeticOp.u_rem = false
is_plain_op ArithmeticOp.s_rem = false
is_plain_op ArithmeticOp.s_div = false
is_plain_op ArithmeticOp.a_shr = false
is_plain_op op = true

unfoldable pub is_plain_cast : CastOp → Bool
is_plain_cast CastOp.z_ext = true
is_plain_cast op = false

-- No negation, no conversion but to a wider unsigned type, and plain operators throughout.
unfoldable mutual
  unfolding is_plain_op is_plain_cast

  pub is_plain : SExpr → Bool
  is_plain (concrete w v) = true
  is_plain (register w reg name) = true
  is_plain (select w c t f) = is_plain c && (is_plain t && is_plain f)
  is_plain (logical op e es) = is_plain e && are_plain es
  is_plain (negation e) = false
  is_plain (cast op w e) = is_plain_cast op && is_plain e
  is_plain (arithmetic op w l r) = is_plain_op op && (is_plain l && is_plain r)
  is_plain (comparison op l r) = is_plain l && is_plain r

  are_plain : Kids → Bool
  are_plain nil = true
  are_plain (cons e es) = is_plain e && are_plain es
