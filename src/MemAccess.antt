-- ===== src/MemAccess.antt =====
-- src/MemAccess.hpp: memory accesses, and the bytes of a word as ordered sets (`WordFragment`).
-- A `std::set<int>` is the list of its elements in order.
pub mod Overlap
pub mod Fragments
use rustmc.Prelude.{
  ℕ, zero, suc, ◌+◌, Bool, true, false, not, ◌&&◌, ◌||◌, List, [], ◌∷◌, map, Option, none, some,
  ltb, leb, ◌==◌, if◌then◌else◌,
}
use rustmc.SAddr.{SAddr, same_storage_as, plus, align, get_byte}

pub data AType : Type 0 where
  pointer signed unsigned : AType

pub record AAccess : Type 0 where
  pub addr : SAddr
  pub size : ℕ
  pub atype : AType

pub contains : AAccess → SAddr → Bool
contains a x = same_storage_as a.addr x && (leb a.addr x && ltb x (plus a.addr a.size))

unfoldable pub overlaps : AAccess → AAccess → Bool
overlaps a b =
    same_storage_as a.addr b.addr
    && (ltb b.addr (plus a.addr a.size) && ltb a.addr (plus b.addr b.size))

abbrev pub WordFragment : Type 0
WordFragment = List ℕ

unfoldable pub bytes_from : ℕ → ℕ → List ℕ
bytes_from first zero = []
bytes_from first (suc n) = first ∷ bytes_from (suc first) n

-- The constructor from an access.
unfoldable pub fragment : AAccess → WordFragment
unfolding bytes_from
fragment a = bytes_from (get_byte a.addr) a.size

unfoldable pub has : ℕ → List ℕ → Bool
has y [] = false
has y (x ∷ xs) = y == x || has y xs

unfoldable pub keep : (ℕ → Bool) → List ℕ → List ℕ
keep p [] = []
keep p (x ∷ xs) = if p x then x ∷ keep p xs else keep p xs

unfoldable pub subtract : WordFragment → WordFragment → WordFragment
unfolding keep
subtract f g = keep (λ x. not (has x g)) f

unfoldable pub intersect : WordFragment → WordFragment → WordFragment
unfolding keep
intersect f g = keep (λ x. has x g) f

unfoldable pub get_overlap : AAccess → WordFragment → WordFragment
unfolding fragment intersect
get_overlap a f = intersect (fragment a) f

-- A maximal run of consecutive bytes: its first byte and its length.
pub record Run : Type 0 where
  pub beg : ℕ
  pub size : ℕ

-- The two loops of `getAccesses`: the run from `beg` is `size` bytes long so far.
unfoldable pub run_from : ℕ → ℕ → WordFragment → List Run
run_from beg size [] = record { beg = beg; size = size } ∷ []
run_from beg size (x ∷ xs) =
    let longer = run_from beg (suc size) xs in
    let next = record { beg = beg; size = size } ∷ run_from x 1 xs in
    if x == beg + size then longer else next

unfoldable pub runs : WordFragment → List Run
unfolding run_from
runs [] = []
runs (x ∷ xs) = run_from x 1 xs

abbrev pub run_access : SAddr → AType → Run → AAccess
run_access word t r = record { addr = plus word r.beg; size = r.size; atype = t }

-- `none` is the abort of `BUG_ON(word != word.align())`.
unfoldable pub get_accesses : SAddr → WordFragment → AType → Option (List AAccess)
unfolding runs
get_accesses word f t = if word == align word then some (map (run_access word t) (runs f)) else none
