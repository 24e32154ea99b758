-- ===== src/SAddr/Fields.antt =====
-- src/SAddr.hpp: what is put into a new address is what the queries read.
use rustmc.Prelude.{
  ℕ, ◌+◌, ◌*◌, ◌/◌, ◌%◌, ◌^◌, ◌<◌, ◌≡◌, Bool, true, false, Option, some, ◌==◌, if◌then◌else◌, arith,
  ap, ◌∙◌,
}
use Prim.Native.Nat.{bit_and}
use rustmc.Prelude.Bits.{bit_or_above, bit_and_low, bit_and_shifted}
use rustmc.SAddr.{
  SAddr, limit, create_static, create_heap, create_automatic, is_static, is_automatic, is_internal,
  is_durable, same_storage_as, align, get_byte, plus,
}

-- The storage bits are the digits from the 60th on.
bit_at : (k a : ℕ) → bit_and a (1 * 2 ^ k) ≡ a / 2 ^ k % 2 * 2 ^ k
bit_at k a = bit_and_shifted k 1 a ∙ ap (λ (t : ℕ). t * 2 ^ k) (bit_and_low 1 (a / 2 ^ k))

pub is_static-bit : (a : SAddr) → is_static a ≡ (a / 2 ^ 63 % 2 == 1)
unfolding is_static
is_static-bit a = ground (arith, bit_at 63 a)

pub is_automatic-bit : (a : SAddr) → is_automatic a ≡ (a / 2 ^ 62 % 2 == 1)
unfolding is_automatic
is_automatic-bit a = ground (arith, bit_at 62 a)

pub is_internal-bit : (a : SAddr) → is_internal a ≡ (a / 2 ^ 61 % 2 == 1)
unfolding is_internal
is_internal-bit a = ground (arith, bit_at 61 a)

pub is_durable-bit : (a : SAddr) → is_durable a ≡ (a / 2 ^ 60 % 2 == 1)
unfolding is_durable
is_durable-bit a = ground (arith, bit_at 60 a)

pub same_storage_as-bits :
    (a b : SAddr) → same_storage_as a b ≡ (a / 2 ^ 60 % 16 == b / 2 ^ 60 % 16)
unfolding same_storage_as
same_storage_as-bits a b = ground (
  arith,
  bit_and_shifted 60 15 a,
  bit_and_shifted 60 15 b,
  bit_and_low 4 (a / 2 ^ 60),
  bit_and_low 4 (b / 2 ^ 60),
)

pub get_byte-mod : (a : SAddr) → get_byte a ≡ a % 8
unfolding get_byte
get_byte-mod a = bit_and_low 3 a

-- The pools that addresses come from.
pub data Storage : Type 0 where
  static automatic heap : Storage

abbrev pub create_in : Storage → ℕ → Bool → Bool → Option SAddr
create_in static = create_static
create_in automatic = create_automatic
create_in heap = create_heap

abbrev pub bit : Bool → ℕ
bit b = if b then 1 else 0

abbrev pub storage_bits : Storage → ℕ
storage_bits static = 8
storage_bits automatic = 4
storage_bits heap = 0

pub create_in-fields :
    (s : Storage) (v : ℕ) (durable internal : Bool)
    → v < limit
    → create_in s v durable internal
      ≡ some ((storage_bits s + bit internal * 2 + bit durable) * 2 ^ 60 + v)
unfolding create_static create_heap create_automatic
create_in-fields static v true true h = ground (arith, bit_or_above 60 11 v)
create_in-fields static v true false h = ground (arith, bit_or_above 60 9 v)
create_in-fields static v false true h = ground (arith, bit_or_above 60 10 v)
create_in-fields static v false false h = ground (arith, bit_or_above 60 8 v)
create_in-fields automatic v true true h = ground (arith, bit_or_above 60 7 v)
create_in-fields automatic v true false h = ground (arith, bit_or_above 60 5 v)
create_in-fields automatic v false true h = ground (arith, bit_or_above 60 6 v)
create_in-fields automatic v false false h = ground (arith, bit_or_above 60 4 v)
create_in-fields heap v true true h = ground (arith, bit_or_above 60 3 v)
create_in-fields heap v true false h = ground (arith, bit_or_above 60 1 v)
create_in-fields heap v false true h = ground (arith, bit_or_above 60 2 v)
create_in-fields heap v false false h = ground (arith, bit_or_above 60 0 v)

-- What the queries answer on an address.
pub record Answers (s : Storage) (v : ℕ) (d i : Bool) (a : SAddr) : Type 0 where
  pub static : is_static a ≡ (storage_bits s == 8)
  pub automatic : is_automatic a ≡ (storage_bits s == 4)
  pub durable : is_durable a ≡ d
  pub internal : is_internal a ≡ i
  pub value : a % 2 ^ 60 ≡ v

-- For a value below the limit a new address of each pool answers with its storage, its flags and
-- its value.
pub create_in-Answers :
    (s : Storage) (v : ℕ) (durable internal : Bool)
    → v < limit
    → (a : SAddr) × (create_in s v durable internal ≡ some a) × Answers s v durable internal a
create_in-Answers s v durable internal h = (
  (storage_bits s + bit internal * 2 + bit durable) * 2 ^ 60 + v,
  create_in-fields s v durable internal h,
  answers s durable internal,
)
  where
    answers :
        (s : Storage) (d i : Bool)
        → Answers s v d i ((storage_bits s + bit i * 2 + bit d) * 2 ^ 60 + v)
    answers s d i =
        let a = (storage_bits s + bit i * 2 + bit d) * 2 ^ 60 + v in
        record {
          static = ground (arith, is_static-bit a, s);
          automatic = ground (arith, is_automatic-bit a, s);
          durable = ground (arith, is_durable-bit a, s);
          internal = ground (arith, is_internal-bit a, s);
          value = ground arith;
        }

pub align-align : (a : SAddr) → align a ≡ align (align a)
unfolding align
align-align a = omega arith

pub get_byte-plus : (word : SAddr) (b : ℕ) → word ≡ align word → b < 8 → get_byte (plus word b) ≡ b
unfolding align
get_byte-plus word b h l = get_byte-mod (plus word b) ∙ omega arith
