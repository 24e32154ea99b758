-- ===== src/SExpr.antt =====
-- src/SExpr.hpp: expressions over symbolic variables. A register is the number that identifies it.
-- The source gives each kind of node a class over a vector of kids; here the classes of one macro
-- share a constructor, with the operator as an argument. What the constructors of a class ensure
-- of the vector, and of the width of a Boolean node, stands in the type.
pub mod Kinds
pub mod Clone
pub mod Evaluate
pub mod Meaning
pub mod Replace
pub mod Transform
use Prim.Native.String.{String, len}
use Prim.Native.String as Text
use rustmc.Prelude.{
  ℕ, zero, suc, ◌+◌, ◌-◌, ◌%◌, ◌/◌, ◌^◌, Bool, true, false, not, List, [], ◌∷◌, Option, none, some,
  ltb, ◌==◌, if◌then◌else◌, length, get_elem?, set, get_or,
}
use rustmc.SVal.{SVal}

abbrev Width : Type 0
Width = ℕ

abbrev bool_width : Width
bool_width = 1

pub data LogicalOp : Type 0 where
  conjunction disjunction : LogicalOp

pub data CastOp : Type 0 where
  s_ext z_ext trunc : CastOp

pub data ArithmeticOp : Type 0 where
  add sub mul u_div s_div u_rem s_rem and or xor shl l_shr a_shr : ArithmeticOp

pub data CmpOp : Type 0 where
  eq ne ult ule ugt uge slt sle sgt sge : CmpOp

-- A logical node has a first kid, since its constructor aborts on an empty vector.
mutual
  pub data SExpr : Type 0 where
    concrete : Width → SVal → SExpr
    register : Width → ℕ → String → SExpr
    select : Width → SExpr → SExpr → SExpr → SExpr
    logical : LogicalOp → SExpr → Kids → SExpr
    negation : SExpr → SExpr
    cast : CastOp → Width → SExpr → SExpr
    arithmetic : ArithmeticOp → Width → SExpr → SExpr → SExpr
    comparison : CmpOp → SExpr → SExpr → SExpr

  pub data Kids : Type 0 where
    nil : Kids
    cons : SExpr → Kids → Kids

get_width : SExpr → Width
get_width (concrete w v) = w
get_width (register w reg name) = w
get_width (select w c t f) = w
get_width (logical op e es) = bool_width
get_width (negation e) = bool_width
get_width (cast op w e) = w
get_width (arithmetic op w l r) = w
get_width (comparison op l r) = bool_width

to_list : Kids → List SExpr
to_list nil = []
to_list (cons e es) = e ∷ to_list es

of_list : List SExpr → Kids
of_list [] = nil
of_list (e ∷ es) = cons e (of_list es)

get_kids : SExpr → List SExpr
unfolding to_list
get_kids (concrete w v) = []
get_kids (register w reg name) = []
get_kids (select w c t f) = c ∷ t ∷ f ∷ []
get_kids (logical op e es) = e ∷ to_list es
get_kids (negation e) = e ∷ []
get_kids (cast op w e) = e ∷ []
get_kids (arithmetic op w l r) = l ∷ r ∷ []
get_kids (comparison op l r) = l ∷ r ∷ []

-- The constructors with a default: the width of a kid.
unfoldable create_select : SExpr → SExpr → SExpr → SExpr
unfolding get_width
create_select c t f = select (get_width t) c t f

create_arithmetic : ArithmeticOp → SExpr → SExpr → SExpr
unfolding get_width
create_arithmetic op l r = arithmetic op (get_width l) l r

-- The constructor from a vector aborts on an empty one.
unfoldable create_logical : LogicalOp → List SExpr → Option SExpr
unfolding of_list
create_logical op [] = none
create_logical op (e ∷ es) = some (logical op e (of_list es))

unfoldable create_true : SExpr
create_true = concrete 1 1

unfoldable create_false : SExpr
create_false = concrete 1 0

get_num_kids : SExpr → ℕ
unfolding get_kids
get_num_kids e = length (get_kids e)

-- Out of range, the two accessors abort.
unfoldable get_kid : SExpr → ℕ → Option SExpr
unfolding get_kids
get_kid e i = get_elem? (get_kids e) i

-- The node with another vector of as many kids.
with_kids : SExpr → List SExpr → SExpr
unfolding of_list
with_kids (select w c t f) (c' ∷ t' ∷ f' ∷ []) = select w c' t' f'
with_kids (logical op e es) (e' ∷ es') = logical op e' (of_list es')
with_kids (negation e) (e' ∷ []) = negation e'
with_kids (cast op w e) (e' ∷ []) = cast op w e'
with_kids (arithmetic op w l r) (l' ∷ r' ∷ []) = arithmetic op w l' r'
with_kids (comparison op l r) (l' ∷ r' ∷ []) = comparison op l' r'
with_kids e _ = e

unfoldable set_kid : SExpr → ℕ → SExpr → Option SExpr
unfolding get_kids get_num_kids with_kids
set_kid e i k = if ltb i (get_num_kids e) then some (with_kids e (set (get_kids e) i k)) else none

-- The name of a register that is given none is made from a counter, an `unsigned`.
digit : ℕ → String
digit n = get_or ("0" ∷ "1" ∷ "2" ∷ "3" ∷ "4" ∷ "5" ∷ "6" ∷ "7" ∷ "8" ∷ "9" ∷ []) n ""

-- At most ten digits.
to_string : ℕ → ℕ → String
unfolding digit
to_string zero n = ""
to_string (suc rounds) n =
    let rest = to_string rounds (n / 10) in
    if ltb n 10 then digit n else Text.◌++◌ rest (digit (n % 10))

unfoldable create_register : ℕ → Width → ℕ → String → SExpr × ℕ
unfolding to_string
create_register reg_count w reg name =
    if len name == 0
    then (register w reg (Text.◌++◌ "#s" (to_string 10 reg_count)), suc reg_count % 2 ^ 32)
    else (register w reg name, reg_count)
