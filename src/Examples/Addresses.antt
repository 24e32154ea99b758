-- ===== src/Examples/Addresses.antt =====
-- Runs of src/SAddr.hpp, src/SAddrAllocator.hpp and src/MemAccess.hpp on concrete addresses.
use rustmc.Prelude.{◌+◌, ◌^◌, ◌≡◌, true, false, some, arith, [], ◌∷◌}
use rustmc.SAddr.{SAddr}
use rustmc.SAddr.Fields.{static, heap, create_in, Answers, create_in-Answers}
use rustmc.SAddr.Allocator.{SAddrAllocator, Request, allocate}
use rustmc.SAddr.Allocator.Blocks.{Fresh, allocate-Fresh, address, allocate_repeats}
use rustmc.MemAccess.{AAccess, unsigned, runs}
use rustmc.MemAccess.Overlap.{IsInStorage}
use rustmc.MemAccess.Fragments.{IsSplit, runs-IsSplit}

create_in-Answers_example :
    (a : SAddr) × (create_in static 4096 true false ≡ some a) × Answers static 4096 true false a
create_in-Answers_example = create_in-Answers static 4096 true false (omega arith)

abbrev word_request : Request
word_request = record {
  storage = heap;
  size = 24;
  alignment = 16;
  durable = false;
  internal = false;
}

abbrev later_allocator : SAddrAllocator
later_allocator = record { static_pool = 0; automatic_pool = 0; heap_pool = 1 + 2 ^ 32 }

abbrev first_allocator : SAddrAllocator
first_allocator = record { static_pool = 0; automatic_pool = 0; heap_pool = 1 }

allocate-Fresh_example :
    (a : SAddr) × (al' : SAddrAllocator) × (allocate first_allocator word_request ≡ some (a, al'))
    × Fresh first_allocator word_request 4 a al'
allocate-Fresh_example =
    allocate-Fresh first_allocator word_request 4 (omega arith) (omega arith) (omega arith)

allocate_repeats_example :
    address (allocate later_allocator word_request)
    ≡ address (allocate first_allocator word_request)
allocate_repeats_example =
    allocate_repeats first_allocator later_allocator word_request 4 (omega arith) (omega arith)
      (omega arith) (omega arith)

abbrev four_bytes : AAccess
four_bytes = record { addr = 2 ^ 63 + 16; size = 4; atype = unsigned }

abbrev two_bytes : AAccess
two_bytes = record { addr = 2 ^ 63 + 18; size = 2; atype = unsigned }

four_bytes-IsInStorage : IsInStorage four_bytes
four_bytes-IsInStorage = record {
  word = omega arith;
  some_byte = omega arith;
  inside = omega arith;
}

two_bytes-IsInStorage : IsInStorage two_bytes
two_bytes-IsInStorage = record { word = omega arith; some_byte = omega arith; inside = omega arith }

runs-IsSplit_example : IsSplit (0 ∷ 1 ∷ 4 ∷ 5 ∷ 6 ∷ []) (runs (0 ∷ 1 ∷ 4 ∷ 5 ∷ 6 ∷ []))
runs-IsSplit_example = runs-IsSplit (0 ∷ 1 ∷ 4 ∷ 5 ∷ 6 ∷ [])
