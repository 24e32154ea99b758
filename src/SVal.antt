-- ===== src/SVal.antt =====
-- src/SVal.hpp: the 64-bit values that are written to memory. A value is a number below 2 ^ 64, and
-- each operation that can leave that range wraps around where `uint64_t` does.
-- What C++ leaves undefined (a division by zero, a shift by the width or more) and what the code
-- aborts on is the answer `none`.
pub mod Signed
pub mod Words
pub mod Order
use Prim.Native.Nat.{bit_and, bit_or, bit_xor}
use rustmc.Prelude.{
  ℕ, zero, suc, ◌+◌, ◌-◌, ◌*◌, ◌/◌, ◌%◌, ◌^◌, Bool, true, false, not, ◌||◌, Option, none, some, ltb,
  ◌==◌, if◌then◌else◌, ℤ, pos, negsuc, ltℤ, shift_right,
}

abbrev pub SVal : Type 0
SVal = ℕ

abbrev width : ℕ
width = 64

-- The bytes of the value, read as an `int64_t`.
unfoldable pub get_signed : SVal → ℤ
get_signed v = if ltb v (2 ^ 63) then pos v else negsuc (2 ^ 64 - 1 - v)

-- The conversion of an `int64_t` to the value's type.
unfoldable pub to_value : ℤ → SVal
to_value (pos a) = a % 2 ^ 64
to_value (negsuc a) = 2 ^ 64 - 1 - a % 2 ^ 64

unfoldable pub get_bool : SVal → Bool
get_bool v = not (v == 0)

unfoldable pub sign_extend_bottom : SVal → ℕ → Option SVal
unfolding get_signed to_value
sign_extend_bottom v b =
    if b == 0 || ltb width b
    then none
    else some (to_value (shift_right (get_signed (v * 2 ^ (width - b) % 2 ^ width)) (width - b)))

unfoldable pub eq : SVal → SVal → Bool
eq a b = a == b

unfoldable pub ne : SVal → SVal → Bool
unfolding eq
ne a b = not (eq a b)

compare : SVal → SVal → ℤ
compare a b = if ltb a b then negsuc 0 else if ltb b a then pos 1 else pos 0

compare_signed : SVal → SVal → ℤ
unfolding get_signed
compare_signed a b =
    if ltℤ (get_signed a) (get_signed b)
    then negsuc 0
    else if ltℤ (get_signed b) (get_signed a)
    then pos 1
    else pos 0

pub ult : SVal → SVal → Bool
unfolding compare
ult a b = ltℤ (compare a b) (pos 0)

unfoldable pub slt : SVal → SVal → Bool
unfolding compare_signed
slt a b = ltℤ (compare_signed a b) (pos 0)

pub ule : SVal → SVal → Bool
unfolding compare
ule a b = not (ltℤ (pos 0) (compare a b))

pub sle : SVal → SVal → Bool
unfolding compare_signed
sle a b = not (ltℤ (pos 0) (compare_signed a b))

unfoldable pub ugt : SVal → SVal → Bool
unfolding ule
ugt a b = not (ule a b)

pub sgt : SVal → SVal → Bool
unfolding sle
sgt a b = not (sle a b)

unfoldable pub uge : SVal → SVal → Bool
unfolding ult
uge a b = not (ult a b)

pub sge : SVal → SVal → Bool
unfolding slt
sge a b = not (slt a b)

-- The binary operators that `IMPL_BINOP` defines, in its order.
pub data Operator : Type 0 where
  plus minus times div rem band bor bxor shl shr : Operator

unfoldable pub apply : Operator → SVal → SVal → Option SVal
apply plus a b = some ((a + b) % 2 ^ 64)
apply minus a b = some ((a + 2 ^ 64 - b) % 2 ^ 64)
apply times a b = some (a * b % 2 ^ 64)
apply div a b = if b == 0 then none else some (a / b)
apply rem a b = if b == 0 then none else some (a % b)
apply band a b = some (bit_and a b)
apply bor a b = some (bit_or a b)
apply bxor a b = some (bit_xor a b)
apply shl a b = if ltb b width then some (a * 2 ^ b % 2 ^ 64) else none
apply shr a b = if ltb b width then some (a / 2 ^ b) else none

unfoldable complement : SVal → SVal
complement a = 2 ^ 64 - 1 - a
