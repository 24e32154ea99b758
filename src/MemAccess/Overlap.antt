-- ===== src/MemAccess/Overlap.antt =====
-- src/MemAccess.hpp: two accesses overlap exactly when a byte lies in both.
use rustmc.Prelude.{◌+◌, ◌%◌, ◌^◌, ◌<◌, ◌≡◌, true, ◌&&◌, arith, max}
use rustmc.SAddr.{SAddr, plus}
use rustmc.SAddr.Fields.{same_storage_as-bits}
use rustmc.MemAccess.{AAccess, contains, overlaps}

-- The access has a byte, and its bytes do not run over into the storage bits.
pub record IsInStorage (a : AAccess) : Type 0 where
  pub word : a.addr < 2 ^ 64
  pub some_byte : 0 < a.size
  pub inside : a.addr % 2 ^ 60 + a.size < 2 ^ 60

plus_inside : (a : AAccess) → IsInStorage a → plus a.addr a.size ≡ a.addr + a.size
plus_inside a v = omega (arith, v.word, v.inside)

-- The first byte that the two can share.
pub first_common : AAccess → AAccess → SAddr
first_common a b = max a.addr b.addr

-- Two accesses that have bytes and stay within their storage overlap exactly when both contain the
-- greater of their two addresses.
pub overlaps-first_common :
    (a b : AAccess)
    → IsInStorage a
    → IsInStorage b
    → overlaps a b ≡ (contains a (first_common a b) && contains b (first_common a b))
unfolding overlaps contains first_common
overlaps-first_common a b v w = ground (
  arith,
  plus_inside a v,
  plus_inside b w,
  v.some_byte,
  w.some_byte,
  same_storage_as-bits a.addr b.addr,
  same_storage_as-bits a.addr (max a.addr b.addr),
  same_storage_as-bits b.addr (max a.addr b.addr),
)

-- Two accesses that have bytes and stay within their storage overlap if some address lies in both.
pub overlaps_of_common :
    (a b : AAccess) (x : SAddr)
    → IsInStorage a
    → IsInStorage b
    → contains a x ≡ true
    → contains b x ≡ true
    → overlaps a b ≡ true
unfolding overlaps contains
overlaps_of_common a b x v w p q = ground (
  arith,
  plus_inside a v,
  plus_inside b w,
  same_storage_as-bits a.addr b.addr,
  same_storage_as-bits a.addr x,
  same_storage_as-bits b.addr x,
)
