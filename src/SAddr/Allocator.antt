-- ===== src/SAddr/Allocator.antt =====
-- src/SAddrAllocator.hpp: fresh addresses from three pools, each a counter of bytes handed out.
-- The size, the alignment and what is computed from them alone are 32-bit, the counters 64-bit.
pub mod Blocks
use rustmc.Prelude.{◌>>=◌, ℕ, ◌+◌, ◌-◌, ◌%◌, ◌^◌, Bool, Option, none, some, max}
use Prim.Native.Nat.{bit_and}
use rustmc.SAddr.{SAddr, width_mod}
use rustmc.SAddr.Fields.{Storage, static, automatic, heap, create_in}

pub record SAddrAllocator : Type 0 where
  pub static_pool : ℕ
  pub automatic_pool : ℕ
  pub heap_pool : ℕ

pub fresh_allocator : SAddrAllocator
fresh_allocator = record { static_pool = 0; automatic_pool = 0; heap_pool = 1 }

abbrev pub u32_mod : ℕ
u32_mod = 2 ^ 32

-- `pool += (offset + size)`
pub advance_pool : ℕ → ℕ → ℕ → ℕ
advance_pool pool size alignment = (pool + ((max alignment 8 - 1 + size) % u32_mod)) % width_mod

-- `(oldAddr + offset) & ~(alignment - 1)`, where the mask is computed in 32 bits.
pub aligned : ℕ → ℕ → ℕ
aligned pool alignment =
    bit_and ((pool + (max alignment 8 - 1)) % width_mod) (u32_mod - max alignment 8)

abbrev pub pool_of : Storage → SAddrAllocator → ℕ
pool_of static al = al.static_pool
pool_of automatic al = al.automatic_pool
pool_of heap al = al.heap_pool

abbrev pub put_pool : Storage → SAddrAllocator → ℕ → SAddrAllocator
put_pool static al n = record al { static_pool = n }
put_pool automatic al n = record al { automatic_pool = n }
put_pool heap al n = record al { heap_pool = n }

pub record Request : Type 0 where
  pub storage : Storage
  pub size : ℕ
  pub alignment : ℕ
  pub durable : Bool
  pub internal : Bool

-- `allocStatic`, `allocAutomatic` and `allocHeap`; `none` is the abort of an address past the limit.
pub allocate : SAddrAllocator → Request → Option (SAddr × SAddrAllocator)
unfolding advance_pool aligned
allocate al r =
    let pool = pool_of r.storage al in
    create_in r.storage (aligned pool r.alignment) r.durable r.internal >>= λ a.
    some (a, put_pool r.storage al (advance_pool pool r.size r.alignment))
