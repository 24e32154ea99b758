-- ===== src/Examples/Values.antt =====
-- Runs of src/SVal.hpp on small and on negative values.
use rustmc.Prelude.{◌+◌, ◌-◌, ◌%◌, ◌^◌, ◌≡◌, refl, none, some, ltb, if◌then◌else◌, arith, true}
use rustmc.SVal.{sign_extend_bottom, apply, minus, div, shl, slt, get_signed, to_value}
use rustmc.SVal.Words.{sign_extend_bottom_lem}

sign_extend_bottom_lem_example :
    sign_extend_bottom 384 8
    ≡ some (if ltb (384 % 2 ^ 8) (2 ^ 7) then 384 % 2 ^ 8 else 2 ^ 64 - 2 ^ 8 + 384 % 2 ^ 8)
sign_extend_bottom_lem_example = sign_extend_bottom_lem 384 7 (omega arith)

extends_minus_128 : sign_extend_bottom 384 8 ≡ some (2 ^ 64 - 128)
unfolding sign_extend_bottom get_signed to_value
extends_minus_128 = refl

aborts_on_no_bits : sign_extend_bottom 384 0 ≡ none
unfolding sign_extend_bottom
aborts_on_no_bits = refl

minus_one_below_one : slt (2 ^ 64 - 1) 1 ≡ true
unfolding slt get_signed
minus_one_below_one = refl

wraps : apply minus 3 4 ≡ some (2 ^ 64 - 1)
unfolding apply
wraps = refl

no_division_by_zero : apply div 3 0 ≡ none
unfolding apply
no_division_by_zero = refl

no_wide_shift : apply shl 1 64 ≡ none
unfolding apply
no_wide_shift = refl
