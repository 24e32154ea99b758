-- ===== src/RfOptions/Ways.antt =====
-- src/GenMCDriver.cpp: the enumeration without its accumulators, as an equation.
use rustmc.Prelude.{
  ◌>>=◌, ◌≡◌, refl, Bool, ◌&&◌, List, [], ◌∷◌, ◌++◌, map, Option, some, if◌then◌else◌, arith, ap,
  ◌∙◌, sym, inl, inr, Bool-cases,
}
use mathlib.Core.List.{reverse, append_assoc, append-nil}
use rustmc.Event.{Event}
use rustmc.SAddr.{SAddr, align}
use rustmc.SAddr.Fields.{align-align}
use rustmc.MemAccess.{
  AAccess, unsigned, WordFragment, fragment, subtract, get_accesses, runs, run_access,
}
use rustmc.RfOptions.{
  Store, RfsT, overlap_of, is_nil, is_done, all_of, erase, enumerate, enumerate_options,
}

-- The accesses by which a store is read on the overlap.
unfoldable pub pieces : SAddr → WordFragment → List AAccess
pieces word overlap = map (run_access word unsigned) (runs overlap)

unfoldable pub reads_of : Event → List AAccess → RfsT
reads_of e as' = map (λ (a : AAccess). (e, a)) as'

pub get_accesses-pieces :
    (word : SAddr) (f : WordFragment)
    → word ≡ align word
    → get_accesses word f unsigned ≡ some (pieces word f)
unfolding get_accesses pieces
get_accesses-pieces word f h = ground arith

unfoldable pub extend : RfsT → List RfsT → List RfsT
extend current found = map (λ (rfs : RfsT). current ++ rfs) found

extend-append : (c : RfsT) (xs ys : List RfsT) → extend c (xs ++ ys) ≡ extend c xs ++ extend c ys
unfolding extend
extend-append c [] ys = refl
extend-append c (x ∷ xs) ys = ap (λ (l : List RfsT). (c ++ x) ∷ l) (extend-append c xs ys)

extend-extend : (c d : RfsT) (xs : List RfsT) → extend c (extend d xs) ≡ extend (c ++ d) xs
unfolding extend
extend-extend c d [] = refl
extend-extend c d (x ∷ xs) =
    ap (λ (y : RfsT). y ∷ extend c (extend d xs)) (sym (append_assoc c d x))
    ∙ ap (λ (ys : List RfsT). ((c ++ d) ++ x) ∷ ys) (extend-extend c d xs)

bind-some :
    {o : Option (List RfsT)} {a : List RfsT} {b : Option (List RfsT)}
    (g : List RfsT → Option (List RfsT))
    → o ≡ some a
    → g a ≡ b
    → (o >>= g) ≡ b
bind-some g e h = ap (λ o. o >>= g) e ∙ h

module _ (word : SAddr) (coherent : Store → AAccess → Bool) where
  -- All the ways to cover the bytes `f` with some of the stores, in the order they are found:
  -- those that read from the first store, then those that do not.
  unfoldable pub ways : List Store → WordFragment → List Event → List RfsT
  unfolding extend pieces reads_of
  ways [] f m = if is_nil f && is_done m then [] ∷ [] else []
  ways (s ∷ ss) f m =
      let overlap = overlap_of s f in
      let reads = pieces word overlap in
      let found = extend (reads_of s.pos reads) (ways ss (subtract f overlap) (erase s.pos m)) in
      let rest = ways ss f m in
      if is_nil f
      then (if is_done m then [] ∷ [] else [])
      else if is_nil overlap
      then rest
      else if all_of (coherent s) reads
      then found ++ rest
      else rest

  joined :
      (options : List RfsT) (current reads : RfsT) (xs ys : List RfsT)
      → (options ++ extend (current ++ reads) xs) ++ extend current ys
        ≡ options ++ extend current (extend reads xs ++ ys)
  joined options current reads xs ys =
      append_assoc options (extend (current ++ reads) xs) (extend current ys)
      ∙ ap (λ (l : List RfsT). options ++ l)
          (ap (λ (l : List RfsT). l ++ extend current ys) (sym (extend-extend current reads xs))
            ∙ sym (extend-append current (extend reads xs) ys))

  module _ (aligned : word ≡ align word) where
    pub enumerate-ways :
        (options : List RfsT) (ss : List Store) (current : RfsT) (f : WordFragment) (m : List Event)
        → enumerate word coherent options ss current f m
          ≡ some (options ++ extend current (ways ss f m))
    unfolding enumerate ways extend reads_of
    enumerate-ways options [] current f m = elim (Bool-cases (is_nil f && is_done m)) [
      | inl e ↦ rw e (ap (λ (c : RfsT). some (options ++ c ∷ [])) (sym (append-nil current)))
      | inr e ↦ rw e (ap (λ (o : List RfsT). some o) (sym (append-nil options)))
    ]
    enumerate-ways options (s ∷ ss) current f m = elim (Bool-cases (is_nil f)) [
      | inl e ↦ elim (Bool-cases (is_done m)) [
        | inl d ↦ rw (e, d) (ap (λ (c : RfsT). some (options ++ c ∷ [])) (sym (append-nil current)))
        | inr d ↦ rw (e, d) (ap (λ (o : List RfsT). some o) (sym (append-nil options)))
      ]
      | inr e ↦ elim (Bool-cases (is_nil (overlap_of s f))) [
        | inl o ↦ rw (e, o) (enumerate-ways options ss current f m)
        | inr o ↦ elim (Bool-cases (all_of (coherent s) (pieces word (overlap_of s f)))) [
          | inl c ↦
              rw (e, o, get_accesses-pieces word (overlap_of s f) aligned, c)
                (bind-some _
                    (enumerate-ways options ss
                      (current ++ reads_of s.pos (pieces word (overlap_of s f)))
                      (subtract f (overlap_of s f)) (erase s.pos m))
                    (enumerate-ways
                      (options
                        ++ extend (current ++ reads_of s.pos (pieces word (overlap_of s f)))
                            (ways ss (subtract f (overlap_of s f)) (erase s.pos m)))
                      ss current f m)
                  ∙ ap (λ (o : List RfsT). some o)
                      (joined options current (reads_of s.pos (pieces word (overlap_of s f)))
                        (ways ss (subtract f (overlap_of s f)) (erase s.pos m)) (ways ss f m)))
          | inr c ↦
              rw (e, o, get_accesses-pieces word (overlap_of s f) aligned, c)
                (enumerate-ways options ss current f m)
        ]
      ]
    ]

-- The enumeration does not abort, and its options are the ways to cover the access by the stores, from
-- the back of the vector on, in the opposite order.
pub enumerate_options-ways :
    (coherent : Store → AAccess → Bool) (stores : List Store) (access : AAccess)
    (must_use : List Event)
    → enumerate_options coherent stores access must_use
      ≡ some (reverse (ways (align access.addr) coherent stores (fragment access) must_use))
unfolding enumerate_options extend
enumerate_options-ways coherent stores access must_use =
    bind-some _
      (enumerate-ways (align access.addr) coherent (align-align access.addr) [] stores []
        (fragment access) must_use)
      (ap (λ (o : List RfsT). some (reverse o))
        {y = ways (align access.addr) coherent stores (fragment access) must_use} (extend_nil _))
  where
    extend_nil : (xs : List RfsT) → extend [] xs ≡ xs
    extend_nil [] = refl
    extend_nil (x ∷ xs) = ap (λ (l : List RfsT). x ∷ l) (extend_nil xs)
