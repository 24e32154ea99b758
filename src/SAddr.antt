-- ===== src/SAddr.antt =====
-- src/SAddr.hpp: memory addresses, 64-bit words whose four high bits say what is stored there.
-- An address is its word; the operations are the source's, with the wrap-around written out.
pub mod Fields
pub mod Allocator
use rustmc.Prelude.{
  ℕ, zero, suc, ◌+◌, ◌-◌, ◌*◌, ◌/◌, ◌%◌, ◌^◌, Bool, true, false, not, Option, none, some, ltb, leb,
  ◌==◌, if◌then◌else◌,
}
use Prim.Native.Nat.{bit_and, bit_or, bit_xor}

abbrev pub SAddr : Type 0
SAddr = ℕ

abbrev pub width_mod : ℕ
width_mod = 2 ^ 64

abbrev pub byte_mask : ℕ
byte_mask = 2 ^ 3 - 1

abbrev pub static_mask : ℕ
static_mask = 2 ^ 63

abbrev pub automatic_mask : ℕ
automatic_mask = 2 ^ 62

abbrev pub internal_mask : ℕ
internal_mask = 2 ^ 61

abbrev pub durable_mask : ℕ
durable_mask = 2 ^ 60

abbrev pub storage_mask : ℕ
storage_mask = bit_or (bit_or (bit_or static_mask automatic_mask) internal_mask) durable_mask

abbrev pub limit : ℕ
limit = durable_mask - 1

-- `fresh ^= (-(unsigned long)b ^ fresh) & mask`
pub assign_bit : ℕ → Bool → ℕ → ℕ
assign_bit fresh b mask =
    bit_xor fresh (bit_and (bit_xor (if b then width_mod - 1 else 0) fresh) mask)

-- `none` is the abort of `BUG_ON`.
pub create : ℕ → ℕ → Bool → Bool → Option SAddr
unfolding assign_bit
create storage value durable internal =
    if leb limit value
    then none
    else some (
        bit_or
          (assign_bit (assign_bit (bit_or 0 storage) durable durable_mask) internal internal_mask)
          value)

pub create_static : ℕ → Bool → Bool → Option SAddr
unfolding create
create_static value durable internal = create static_mask value durable internal

pub create_heap : ℕ → Bool → Bool → Option SAddr
unfolding create
create_heap value durable internal = create 0 value durable internal

pub create_automatic : ℕ → Bool → Bool → Option SAddr
unfolding create
create_automatic value durable internal = create automatic_mask value durable internal

pub is_static : SAddr → Bool
is_static a = not (bit_and a static_mask == 0)

pub is_dynamic : SAddr → Bool
unfolding is_static
is_dynamic a = not (is_static a)

pub is_automatic : SAddr → Bool
is_automatic a = not (bit_and a automatic_mask == 0)

pub is_heap : SAddr → Bool
unfolding is_automatic
is_heap a = not (is_automatic a)

pub is_internal : SAddr → Bool
is_internal a = not (bit_and a internal_mask == 0)

pub is_user : SAddr → Bool
unfolding is_internal
is_user a = not (is_internal a)

pub is_durable : SAddr → Bool
is_durable a = not (bit_and a durable_mask == 0)

pub is_volatile : SAddr → Bool
unfolding is_durable
is_volatile a = not (is_durable a)

pub is_null : SAddr → Bool
is_null a = a == 0

unfoldable pub same_storage_as : SAddr → SAddr → Bool
same_storage_as a b = bit_and a storage_mask == bit_and b storage_mask

unfoldable pub align : SAddr → SAddr
align a = a / 2 ^ 3 * 2 ^ 3 % width_mod

pub get_byte : SAddr → ℕ
get_byte a = bit_and a byte_mask

abbrev pub plus : SAddr → ℕ → SAddr
plus a size = (a + size) % width_mod

abbrev pub minus : SAddr → ℕ → SAddr
minus a size = (a + width_mod - size) % width_mod
