-- ===== src/SVal/Signed.antt =====
-- src/SVal.hpp: the signed reading of a value, and the comparisons.
use rustmc.Prelude.{ℕ, ◌+◌, ◌%◌, ◌^◌, ◌<◌, ◌≡◌, not, ltb, arith}
use rustmc.SVal.{SVal, get_signed, to_value, compare_signed, slt, sle, sgt, sge}

-- The value as a signed number moved up by 2 ^ 63.
pub biased : SVal → ℕ
biased v = (v + 2 ^ 63) % 2 ^ 64

-- A value survives being read as a signed number and converted back.
to_value-get_signed : (v : SVal) → v < 2 ^ 64 → to_value (get_signed v) ≡ v
unfolding get_signed to_value
to_value-get_signed v h = ground arith

-- The four signed comparisons order the values as the unsigned order does once each is moved by 2 ^ 63.
pub signed-biased :
    (a b : SVal)
    → a < 2 ^ 64
    → b < 2 ^ 64
    → (slt a b ≡ ltb (biased a) (biased b))
      × (sge a b ≡ not (ltb (biased a) (biased b)))
      × (sgt a b ≡ ltb (biased b) (biased a))
      × (sle a b ≡ not (ltb (biased b) (biased a)))
unfolding get_signed slt sle sgt sge biased compare_signed
signed-biased a b g h = ground arith
