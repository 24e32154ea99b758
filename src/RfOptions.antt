-- ===== src/RfOptions.antt =====
-- src/GenMCDriver.cpp, enumerateRfHelper and enumerateRfOptions: the ways in which a read can take
-- its bytes from several stores, when accesses of different sizes mix.
-- The stores are held from the back of the source's vector, which is where it takes them from.
pub mod Ways
pub mod Covers
use rustmc.Prelude.{
  ◌>>=◌, ℕ, zero, suc, Bool, true, false, not, ◌&&◌, ◌||◌, List, [], ◌∷◌, ◌++◌, map, Option, none,
  some, ◌==◌, if◌then◌else◌,
}
use mathlib.Core.List.{reverse}
use rustmc.Event.{Event, same}
use rustmc.SAddr.{SAddr, align}
use rustmc.MemAccess.{
  AAccess, AType, unsigned, WordFragment, fragment, get_overlap, subtract, get_accesses,
}

-- A store that the read may take bytes from; the initial state has no access of its own.
pub record Store : Type 0 where
  pub pos : Event
  pub access : Option AAccess

-- `RfsT`: each store with what is read from it.
abbrev pub RfsT : Type 0
RfsT = List (Event × AAccess)

abbrev pub overlap_of : Store → WordFragment → WordFragment
overlap_of s remaining = elim s.access [ none ↦ remaining | some a ↦ get_overlap a remaining ]

abbrev pub is_nil : WordFragment → Bool
is_nil [] = true
is_nil (x ∷ xs) = false

abbrev pub is_done : List Event → Bool
is_done [] = true
is_done (e ∷ es) = false

unfoldable pub all_of : (AAccess → Bool) → List AAccess → Bool
all_of p [] = true
all_of p (a ∷ as') = p a && all_of p as'

-- `mustUse.erase(store)`
unfoldable pub erase : Event → List Event → List Event
erase e [] = []
erase e (d ∷ ds) = if same e d then erase e ds else d ∷ erase e ds

-- `coherent s a` says that no coherence successor of the store on `a` is before the read, which
-- is what the graph and the memory model answer (co_succ_begin, co_begin, isWriteRfBefore).
module _ (word : SAddr) (coherent : Store → AAccess → Bool) where
  -- `none` is the abort of getAccesses.
  pub enumerate : List RfsT → List Store → RfsT → WordFragment → List Event → Option (List RfsT)
  unfolding all_of erase
  enumerate options [] current remaining must_use =
      some (if is_nil remaining && is_done must_use then options ++ current ∷ [] else options)
  enumerate options (s ∷ stores) current remaining must_use =
      let overlap = overlap_of s remaining in
      let read = λ (as' : List AAccess).
        enumerate options stores (current ++ map (λ (a : AAccess). (s.pos, a)) as')
          (subtract remaining overlap) (erase s.pos must_use) in
      let skip = λ (found : List RfsT). enumerate found stores current remaining must_use in
      if is_nil remaining
      then some (if is_done must_use then options ++ current ∷ [] else options)
      else if is_nil overlap
      then skip options
      else get_accesses word overlap unsigned >>= λ as'.
          (if all_of (coherent s) as' then read as' else some options) >>= skip

pub enumerate_options :
    (coherent : Store → AAccess → Bool) (stores : List Store) (access : AAccess)
    (must_use : List Event)
    → Option (List RfsT)
enumerate_options coherent stores access must_use =
    enumerate (align access.addr) coherent [] stores [] (fragment access) must_use >>= λ options.
    some (reverse options)
