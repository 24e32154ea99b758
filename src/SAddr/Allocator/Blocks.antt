-- ===== src/SAddr/Allocator/Blocks.antt =====
-- src/SAddrAllocator.hpp: one allocation, below and beyond the first four gigabytes of a pool.
use rustmc.Prelude.{
  ℕ, zero, suc, ◌+◌, ◌-◌, ◌*◌, ◌/◌, ◌%◌, ◌^◌, ◌≤◌, ◌<◌, ◌≡◌, refl, Option, none, some, max, arith,
  ap, sym, ◌∙◌,
}
use Prim.Native.Nat.{bit_and}
use native.Mathlib.Nat.{
  pow-suc, one-le-pow, mod-lt, div-add-mod', mod-eq_of_lt, div-lt_iff_lt-mul, add-mul-div_right,
  add-mod_right, mul-mod_left,
}
use rustmc.Prelude.Bits.{bit_and_low, bit_and_shifted}
use rustmc.SAddr.{SAddr, width_mod, limit}
use rustmc.SAddr.Fields.{
  Storage, static, automatic, heap, create_in, create_in-fields, storage_bits, bit,
}
use rustmc.SAddr.Allocator.{
  SAddrAllocator, u32_mod, advance_pool, aligned, pool_of, put_pool, Request, allocate,
}

pow-add : (m n : ℕ) → 2 ^ (m + n) ≡ 2 ^ m * 2 ^ n
pow-add m zero = omega (arith, ap (λ (t : ℕ). 2 ^ t) {x = m + 0} {y = m} (omega arith))
pow-add m (suc n) = omega (
  arith,
  ap (λ (t : ℕ). 2 ^ t) {x = m + suc n} {y = suc (m + n)} (omega arith),
  pow-suc 2 (m + n),
  pow-add m n,
  ap (λ (t : ℕ). 2 ^ m * t) (pow-suc 2 n),
)

-- 2 ^ 32 in units of 2 ^ k.
word_split : (k : ℕ) → k ≤ 32 → u32_mod ≡ 2 ^ (32 - k) * 2 ^ k
word_split k h = ap (λ (t : ℕ). 2 ^ t) {x = 32} {y = 32 - k + k} (omega arith) ∙ pow-add (32 - k) k

-- The 32-bit mask that clears the k lowest bits.
aligned_mask : (k x : ℕ) → k ≤ 32 → bit_and x (u32_mod - 2 ^ k) ≡ x / 2 ^ k % 2 ^ (32 - k) * 2 ^ k
aligned_mask k x h =
    ap (bit_and x) {x = u32_mod - 2 ^ k} {y = (2 ^ (32 - k) - 1) * 2 ^ k} mask
    ∙ bit_and_shifted k (2 ^ (32 - k) - 1) x
    ∙ ap (λ (t : ℕ). t * 2 ^ k) (bit_and_low (32 - k) (x / 2 ^ k))
  where
    mask : u32_mod - 2 ^ k ≡ (2 ^ (32 - k) - 1) * 2 ^ k
    mask = omega (
      arith,
      word_split k h,
      ap (λ (t : ℕ). t * 2 ^ k) {x = 2 ^ (32 - k)} {y = suc (2 ^ (32 - k) - 1)}
          (omega (arith, one-le-pow (32 - k) 2 (omega arith))),
    )

module _ (pool alignment k : ℕ) (power : max alignment 8 ≡ 2 ^ k) (fits : k ≤ 32) where
  aligned_word :
      pool + 2 ^ k ≤ width_mod
      → aligned pool alignment ≡ (pool + (2 ^ k - 1)) / 2 ^ k % 2 ^ (32 - k) * 2 ^ k
  unfolding aligned
  aligned_word room = rw power (
      aligned_mask k ((pool + (2 ^ k - 1)) % width_mod) fits
      ∙ ap (λ (t : ℕ). t / 2 ^ k % 2 ^ (32 - k) * 2 ^ k)
          (mod-eq_of_lt (omega (arith, one-le-pow k 2 (omega arith)))))

  -- Below four gigabytes the address is the pool's counter, rounded up.
  aligned_rounded :
      pool + 2 ^ k ≤ u32_mod → aligned pool alignment ≡ (pool + (2 ^ k - 1)) / 2 ^ k * 2 ^ k
  aligned_rounded room =
      aligned_word (omega arith)
      ∙ ap (λ (t : ℕ). t * 2 ^ k)
          (mod-eq_of_lt ((div-lt_iff_lt-mul (one-le-pow k 2 (omega arith))).1 below))
    where
      below : pool + (2 ^ k - 1) < 2 ^ (32 - k) * 2 ^ k
      below = omega (arith, word_split k fits, one-le-pow k 2 (omega arith))

  aligned_bounds :
      pool + 2 ^ k ≤ u32_mod
      → (pool ≤ aligned pool alignment)
        × (aligned pool alignment ≤ pool + (2 ^ k - 1))
        × (aligned pool alignment % 2 ^ k ≡ 0)
  aligned_bounds room = (
    omega (
      arith,
      aligned_rounded room,
      div-add-mod' (pool + (2 ^ k - 1)) (2 ^ k),
      mod-lt (pool + (2 ^ k - 1)) (one-le-pow k 2 (omega arith)),
    ),
    omega (arith, aligned_rounded room, div-add-mod' (pool + (2 ^ k - 1)) (2 ^ k)),
    ap (λ (t : ℕ). t % 2 ^ k) (aligned_rounded room)
        ∙ mul-mod_left ((pool + (2 ^ k - 1)) / 2 ^ k) (2 ^ k),
  )

-- Four gigabytes further on the word is the same.
aligned_repeats :
    (pool alignment k : ℕ)
    → max alignment 8 ≡ 2 ^ k
    → k ≤ 32
    → pool + u32_mod + 2 ^ k ≤ width_mod
    → aligned (pool + u32_mod) alignment ≡ aligned pool alignment
aligned_repeats pool alignment k power fits room =
    aligned_word (pool + u32_mod) alignment k power fits room
    ∙ ap (λ (t : ℕ). t * 2 ^ k)
        (ap (λ (t : ℕ). t % 2 ^ (32 - k)) further ∙ add-mod_right _ (2 ^ (32 - k)))
    ∙ sym (aligned_word pool alignment k power fits (omega arith))
  where
    further : (pool + u32_mod + (2 ^ k - 1)) / 2 ^ k ≡ (pool + (2 ^ k - 1)) / 2 ^ k + 2 ^ (32 - k)
    further =
        ap (λ (t : ℕ). t / 2 ^ k) {x = pool + u32_mod + (2 ^ k - 1)}
          {y = pool + (2 ^ k - 1) + 2 ^ (32 - k) * 2 ^ k} (omega (arith, word_split k fits))
        ∙ add-mul-div_right (pool + (2 ^ k - 1)) (2 ^ (32 - k)) (one-le-pow k 2 (omega arith))

-- The bytes of a block within its pool, and how the counter moves over them.
pub record Fresh (al : SAddrAllocator) (r : Request) (k : ℕ) (a : SAddr) (al' : SAddrAllocator)
    : Type 0 where
  pub above : pool_of r.storage al ≤ a % 2 ^ 60
  pub below : a % 2 ^ 60 + r.size ≤ pool_of r.storage al'
  pub multiple : a % 2 ^ 60 % 2 ^ k ≡ 0

advance_pool_lem :
    (pool size alignment k : ℕ)
    → max alignment 8 ≡ 2 ^ k
    → pool + 2 ^ k + size ≤ u32_mod
    → advance_pool pool size alignment ≡ pool + (2 ^ k - 1 + size)
unfolding advance_pool
advance_pool_lem pool size alignment k power room =
    rw power (ground (arith, one-le-pow k 2 (omega arith)))

pool_of-put_pool : (s : Storage) (al : SAddrAllocator) (n : ℕ) → pool_of s (put_pool s al n) ≡ n
pool_of-put_pool static al n = refl
pool_of-put_pool automatic al n = refl
pool_of-put_pool heap al n = refl

low_part : (c v : ℕ) → v < limit → (c * 2 ^ 60 + v) % 2 ^ 60 ≡ v
low_part c v h = omega arith

-- Within the first four gigabytes of a pool, with an alignment that is a power of two, an allocation
-- succeeds, is aligned, and takes bytes that the counter has not passed and then has.
pub allocate-Fresh :
    (al : SAddrAllocator) (r : Request) (k : ℕ)
    → max r.alignment 8 ≡ 2 ^ k
    → k ≤ 32
    → pool_of r.storage al + 2 ^ k + r.size ≤ u32_mod
    → (a : SAddr) × (al' : SAddrAllocator) × (allocate al r ≡ some (a, al')) × Fresh al r k a al'
unfolding allocate
allocate-Fresh al r k power fits room =
    let pool = pool_of r.storage al in
    let v = aligned pool r.alignment in
    let bounds = aligned_bounds pool r.alignment k power fits (omega arith) in
    let small : v < limit = omega (arith, bounds) in
    let al' = put_pool r.storage al (advance_pool pool r.size r.alignment) in
    let c = storage_bits r.storage + bit r.internal * 2 + bit r.durable in
    (
      c * 2 ^ 60 + v,
      al',
      rw (create_in-fields r.storage v r.durable r.internal small),
      record {
        above = omega (arith, low_part c v small, bounds);
        below = omega (
          arith,
          low_part c v small,
          bounds,
          pool_of-put_pool r.storage al (advance_pool pool r.size r.alignment),
          advance_pool_lem pool r.size r.alignment k power room,
        );
        multiple = ap (λ (t : ℕ). t % 2 ^ k) (low_part c v small) ∙ bounds.2;
      },
    )

abbrev pub address : Option (SAddr × SAddrAllocator) → Option SAddr
address none = none
address (some (a, al)) = some a

-- An allocator whose counter stands four gigabytes further on hands out the same address for the same
-- request, with an alignment that is a power of two and a counter that does not wrap.
pub allocate_repeats :
    (al later : SAddrAllocator) (r : Request) (k : ℕ)
    → max r.alignment 8 ≡ 2 ^ k
    → k ≤ 32
    → pool_of r.storage later ≡ pool_of r.storage al + u32_mod
    → pool_of r.storage later + 2 ^ k ≤ width_mod
    → address (allocate later r) ≡ address (allocate al r)
unfolding allocate
allocate_repeats al later r k power fits moved room =
    address_of later
    ∙ ap (λ (v : ℕ). create_in r.storage v r.durable r.internal)
        (ap (λ (p : ℕ). aligned p r.alignment) moved
          ∙ aligned_repeats (pool_of r.storage al) r.alignment k power fits (omega arith))
    ∙ sym (address_of al)
  where
    address_of :
        (w : SAddrAllocator)
        → address (allocate w r)
          ≡ create_in r.storage (aligned (pool_of r.storage w) r.alignment) r.durable r.internal
    address_of w = ground arith
