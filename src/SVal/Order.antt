-- ===== src/SVal/Order.antt =====
-- src/SVal.hpp: the comparisons, which go through a three-way comparison, against the order of the numbers.
use rustmc.Prelude.{◌≡◌, true, false, not, ltb, leb, ℤ, pos, negsuc, ltℤ, arith}
use rustmc.SVal.{SVal, get_signed, compare, compare_signed, ult, ule, ugt, uge, slt, sle, sgt, sge}

pub ult-ltb : (a b : SVal) → ult a b ≡ ltb a b
unfolding ult compare
ult-ltb a b = ground arith

pub ule-leb : (a b : SVal) → ule a b ≡ leb a b
unfolding ule compare
ule-leb a b = ground arith

pub ugt-ltb : (a b : SVal) → ugt a b ≡ ltb b a
unfolding ugt ule compare
ugt-ltb a b = ground arith

pub uge-leb : (a b : SVal) → uge a b ≡ leb b a
unfolding uge ult compare
uge-leb a b = ground arith

ltℤ_asym : (a b : ℤ) → ltℤ a b ≡ true → ltℤ b a ≡ false
ltℤ_asym (pos a) (pos b) h = ground (arith, h)
ltℤ_asym (pos a) (negsuc b) h = ground (arith, h)
ltℤ_asym (negsuc a) (pos b) h = ground (arith, h)
ltℤ_asym (negsuc a) (negsuc b) h = ground (arith, h)

pub slt-ltℤ : (a b : SVal) → slt a b ≡ ltℤ (get_signed a) (get_signed b)
unfolding slt compare_signed
slt-ltℤ a b = ground arith

pub sle-ltℤ : (a b : SVal) → sle a b ≡ not (ltℤ (get_signed b) (get_signed a))
unfolding sle compare_signed
sle-ltℤ a b = ground (arith, ltℤ_asym (get_signed a) (get_signed b))

pub sgt-ltℤ : (a b : SVal) → sgt a b ≡ ltℤ (get_signed b) (get_signed a)
unfolding sgt sle compare_signed
sgt-ltℤ a b = ground (arith, ltℤ_asym (get_signed a) (get_signed b))

pub sge-ltℤ : (a b : SVal) → sge a b ≡ not (ltℤ (get_signed a) (get_signed b))
unfolding sge slt compare_signed
sge-ltℤ a b = ground arith
