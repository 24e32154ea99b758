-- ===== src/SExpr/Kinds.antt =====
-- src/SExpr.hpp: the kinds of nodes, in the order of the enumeration, and the tests of each class
-- (`classof`), which compare a node's kind with the first and the last of a range.
use rustmc.Prelude.{◌≡◌, refl, Bool, true, false, not, ◌&&◌, ℤ, pos, negsuc, ltℤ}
use rustmc.SExpr.{
  SExpr, concrete, register, select, logical, negation, cast, arithmetic, comparison, LogicalOp,
  CastOp, ArithmeticOp, CmpOp,
}

pub data Kind : Type 0 where
  invalid_kind : Kind
  concrete_kind register_kind : Kind
  select_kind concat_kind extract_kind : Kind
  logical_kind_first conjunction disjunction not_kind logical_kind_last : Kind
  cast_kind_first z_ext s_ext trunc cast_kind_last : Kind
  binary_kind_first : Kind
  add sub mul u_div s_div u_rem s_rem : Kind
  and or xor shl l_shr a_shr : Kind
  cmp_kind_first eq ne ult ule ugt uge slt sle sgt sge cmp_kind_last : Kind
  binary_kind_last : Kind

index : Kind → ℤ
index invalid_kind = negsuc 0
index concrete_kind = pos 0
index register_kind = pos 1
index select_kind = pos 2
index concat_kind = pos 3
index extract_kind = pos 4
index logical_kind_first = pos 5
index conjunction = pos 6
index disjunction = pos 7
index not_kind = pos 8
index logical_kind_last = pos 9
index cast_kind_first = pos 10
index z_ext = pos 11
index s_ext = pos 12
index trunc = pos 13
index cast_kind_last = pos 14
index binary_kind_first = pos 15
index add = pos 16
index sub = pos 17
index mul = pos 18
index u_div = pos 19
index s_div = pos 20
index u_rem = pos 21
index s_rem = pos 22
index and = pos 23
index or = pos 24
index xor = pos 25
index shl = pos 26
index l_shr = pos 27
index a_shr = pos 28
index cmp_kind_first = pos 29
index eq = pos 30
index ne = pos 31
index ult = pos 32
index ule = pos 33
index ugt = pos 34
index uge = pos 35
index slt = pos 36
index sle = pos 37
index sgt = pos 38
index sge = pos 39
index cmp_kind_last = pos 40
index binary_kind_last = pos 41

arithmetic_kind : ArithmeticOp → Kind
arithmetic_kind ArithmeticOp.add = add
arithmetic_kind ArithmeticOp.sub = sub
arithmetic_kind ArithmeticOp.mul = mul
arithmetic_kind ArithmeticOp.u_div = u_div
arithmetic_kind ArithmeticOp.s_div = s_div
arithmetic_kind ArithmeticOp.u_rem = u_rem
arithmetic_kind ArithmeticOp.s_rem = s_rem
arithmetic_kind ArithmeticOp.and = and
arithmetic_kind ArithmeticOp.or = or
arithmetic_kind ArithmeticOp.xor = xor
arithmetic_kind ArithmeticOp.shl = shl
arithmetic_kind ArithmeticOp.l_shr = l_shr
arithmetic_kind ArithmeticOp.a_shr = a_shr

cmp_kind : CmpOp → Kind
cmp_kind CmpOp.eq = eq
cmp_kind CmpOp.ne = ne
cmp_kind CmpOp.ult = ult
cmp_kind CmpOp.ule = ule
cmp_kind CmpOp.ugt = ugt
cmp_kind CmpOp.uge = uge
cmp_kind CmpOp.slt = slt
cmp_kind CmpOp.sle = sle
cmp_kind CmpOp.sgt = sgt
cmp_kind CmpOp.sge = sge

logical_kind : LogicalOp → Kind
logical_kind LogicalOp.conjunction = conjunction
logical_kind LogicalOp.disjunction = disjunction

cast_kind : CastOp → Kind
cast_kind CastOp.s_ext = s_ext
cast_kind CastOp.z_ext = z_ext
cast_kind CastOp.trunc = trunc

get_kind : SExpr → Kind
unfolding arithmetic_kind cmp_kind logical_kind cast_kind
get_kind (concrete w v) = concrete_kind
get_kind (register w reg name) = register_kind
get_kind (select w c t f) = select_kind
get_kind (logical op e es) = logical_kind op
get_kind (negation e) = not_kind
get_kind (cast op w e) = cast_kind op
get_kind (arithmetic op w l r) = arithmetic_kind op
get_kind (comparison op l r) = cmp_kind op

-- The order of an enumeration is that of its numbers.
leb_kind : Kind → Kind → Bool
unfolding index
leb_kind a b = not (ltℤ (index b) (index a))

is_logical : SExpr → Bool
unfolding get_kind leb_kind
is_logical e = leb_kind logical_kind_first (get_kind e) && leb_kind (get_kind e) logical_kind_last

is_cast : SExpr → Bool
unfolding get_kind leb_kind
is_cast e = leb_kind cast_kind_first (get_kind e) && leb_kind (get_kind e) cast_kind_last

is_binary : SExpr → Bool
unfolding get_kind leb_kind
is_binary e = leb_kind binary_kind_first (get_kind e) && leb_kind (get_kind e) binary_kind_last

is_cmp : SExpr → Bool
unfolding get_kind leb_kind
is_cmp e = leb_kind cmp_kind_first (get_kind e) && leb_kind (get_kind e) cmp_kind_last

-- The class that made a node, as the source declares it.
class_tests : SExpr → Bool × Bool × Bool × Bool
class_tests (concrete w v) = (false, false, false, false)
class_tests (register w reg name) = (false, false, false, false)
class_tests (select w c t f) = (false, false, false, false)
class_tests (logical op e es) = (true, false, false, false)
class_tests (negation e) = (true, false, false, false)
class_tests (cast op w e) = (false, true, false, false)
class_tests (arithmetic op w l r) = (false, false, true, false)
class_tests (comparison op l r) = (false, false, true, true)

-- The tests on the ranges of kinds tell the classes of logical, cast, binary and comparison nodes: each
-- holds of exactly the nodes that a class below it made.
is_logical-class_tests :
    (e : SExpr) → (is_logical e, is_cast e, is_binary e, is_cmp e) ≡ class_tests e
unfolding is_logical is_cast is_binary is_cmp class_tests
is_logical-class_tests (concrete w v) = refl
is_logical-class_tests (register w reg name) = refl
is_logical-class_tests (select w c t f) = refl
is_logical-class_tests (logical LogicalOp.conjunction e es) = refl
is_logical-class_tests (logical LogicalOp.disjunction e es) = refl
is_logical-class_tests (negation e) = refl
is_logical-class_tests (cast CastOp.s_ext w e) = refl
is_logical-class_tests (cast CastOp.z_ext w e) = refl
is_logical-class_tests (cast CastOp.trunc w e) = refl
is_logical-class_tests (arithmetic ArithmeticOp.add w l r) = refl
is_logical-class_tests (arithmetic ArithmeticOp.sub w l r) = refl
is_logical-class_tests (arithmetic ArithmeticOp.mul w l r) = refl
is_logical-class_tests (arithmetic ArithmeticOp.u_div w l r) = refl
is_logical-class_tests (arithmetic ArithmeticOp.s_div w l r) = refl
is_logical-class_tests (arithmetic ArithmeticOp.u_rem w l r) = refl
is_logical-class_tests (arithmetic ArithmeticOp.s_rem w l r) = refl
is_logical-class_tests (arithmetic ArithmeticOp.and w l r) = refl
is_logical-class_tests (arithmetic ArithmeticOp.or w l r) = refl
is_logical-class_tests (arithmetic ArithmeticOp.xor w l r) = refl
is_logical-class_tests (arithmetic ArithmeticOp.shl w l r) = refl
is_logical-class_tests (arithmetic ArithmeticOp.l_shr w l r) = refl
is_logical-class_tests (arithmetic ArithmeticOp.a_shr w l r) = refl
is_logical-class_tests (comparison CmpOp.eq l r) = refl
is_logical-class_tests (comparison CmpOp.ne l r) = refl
is_logical-class_tests (comparison CmpOp.ult l r) = refl
is_logical-class_tests (comparison CmpOp.ule l r) = refl
is_logical-class_tests (comparison CmpOp.ugt l r) = refl
is_logical-class_tests (comparison CmpOp.uge l r) = refl
is_logical-class_tests (comparison CmpOp.slt l r) = refl
is_logical-class_tests (comparison CmpOp.sle l r) = refl
is_logical-class_tests (comparison CmpOp.sgt l r) = refl
is_logical-class_tests (comparison CmpOp.sge l r) = refl
