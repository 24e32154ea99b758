-- ===== src/RfOptions/Covers.antt =====
-- src/GenMCDriver.cpp: every option of enumerateRfOptions takes each byte of the read from one store,
-- and uses the stores it must use.
use rustmc.Prelude.{
  ℕ, ◌+◌, ◌≤◌, ◌<◌, ◌≡◌, refl, Bool, true, false, not, ◌||◌, List, [], ◌∷◌, ◌++◌, map, some,
  if◌then◌else◌, ltb, Option-cases, trichotomy, arith, ap, ◌∙◌, sym, inl, inr, Bool-cases,
}
use mathlib.Core.List.{reverse, reverse-cons, append_assoc}
use rustmc.Event.{Event, same}
use rustmc.SAddr.{SAddr, align, get_byte, plus}
use rustmc.SAddr.Fields.{get_byte-plus, align-align}
use rustmc.MemAccess.{
  AAccess, unsigned, WordFragment, fragment, subtract, get_overlap, bytes_from, Run, runs,
  run_access,
}
use rustmc.MemAccess.Fragments.{
  times, times-append, times-subtract, times-bytes_from, has-times, times-fragment,
  times-get_overlap, run_bytes, runs-IsSplit,
}
use rustmc.RfOptions.{Store, RfsT, overlap_of, is_nil, is_done, all_of, erase, enumerate_options}
use rustmc.RfOptions.Ways.{pieces, reads_of, extend, ways, enumerate_options-ways}

-- The bytes that an option reads, piece by piece.
unfoldable pub rf_bytes : RfsT → List ℕ
rf_bytes [] = []
rf_bytes (p ∷ rfs) = fragment p.1 ++ rf_bytes rfs

unfoldable pub reads_from : Event → RfsT → Bool
reads_from e [] = false
reads_from e (p ∷ rfs) = same e p.0 || reads_from e rfs

unfoldable pub is_listed : Event → List Event → Bool
is_listed e [] = false
is_listed e (d ∷ ds) = same e d || is_listed e ds

-- The bytes of a word, each at most once.
abbrev pub IsInWord : WordFragment → Type 0
IsInWord f = (y : ℕ) → times y f ≤ (if ltb y 8 then 1 else 0)

-- `rfs` reads every byte of `f` once and no other, and it reads from every store of `m`.
abbrev pub Covers : WordFragment → List Event → RfsT → Type 0
Covers f m rfs =
    ((y : ℕ) → times y (rf_bytes rfs) ≡ times y f)
    × ((e : Event) → (not (is_listed e m) || reads_from e rfs) ≡ true)

abbrev pub All {ℓ} : {A : Type ℓ} → (A → Type 0) → List A → Type 0
All P [] = Unit {0}
All P (x ∷ xs) = P x × All P xs

module _ {ℓ} {A : Type ℓ} (P : A → Type 0) where
  All-append : (xs ys : List A) → All P xs → All P ys → All P (xs ++ ys)
  All-append [] ys p q = q
  All-append (x ∷ xs) ys p q = (p.0, All-append xs ys p.1 q)

  All-reverse : (xs : List A) → All P xs → All P (reverse xs)
  All-reverse [] p = tt
  All-reverse (x ∷ xs) p =
      rw (reverse-cons x xs) (All-append (reverse xs) (x ∷ []) (All-reverse xs p.1) (p.0, tt))

times-overlap_of :
    (s : Store) (f : WordFragment) (y : ℕ)
    → IsInWord f
    → times y (overlap_of s f) + times y (subtract f (overlap_of s f)) ≡ times y f
times-overlap_of s f y h = elim (Option-cases s.access) [
  | inl e ↦ rw e (ground (arith, times-subtract y f f, has-times y f))
  | inr p ↦ rw p.1 (
      ground (
        arith,
        times-subtract y f (get_overlap p.0 f),
        times-get_overlap y p.0 f,
        h y,
        has-times y (get_overlap p.0 f),
        has-times y f,
        times-fragment y p.0,
        times-bytes_from y (get_byte p.0.addr) p.0.size,
      ))
]

times-run :
    (word : SAddr) (y : ℕ) (r : Run)
    → word ≡ align word
    → (0 < r.size → r.beg < 8)
    → times y (fragment (run_access word unsigned r)) ≡ times y (bytes_from r.beg r.size)
times-run word y r aligned h = elim (trichotomy 0 r.size) [
  | inl p ↦
      times-fragment y (run_access word unsigned r)
      ∙ ap (λ (b : ℕ). times y (bytes_from b r.size)) (get_byte-plus word r.beg aligned (h p))
  | inr p ↦ ground (
    arith,
    times-fragment y (run_access word unsigned r),
    times-bytes_from y r.beg r.size,
    times-bytes_from y (get_byte (plus word r.beg)) r.size,
  )
]

-- The part of the lemma below on the runs.
times-runs :
    (word : SAddr) (e : Event) (rs : List Run) (y : ℕ)
    → word ≡ align word
    → IsInWord (run_bytes rs)
    → times y (rf_bytes (reads_of e (map (run_access word unsigned) rs))) ≡ times y (run_bytes rs)
unfolding rf_bytes run_bytes reads_of
times-runs word e [] y aligned h = refl
times-runs word e (r ∷ rs) y aligned h = ground (
  arith,
  times-append y (fragment (run_access word unsigned r))
      (rf_bytes (reads_of e (map (run_access word unsigned) rs))),
  times-append y (bytes_from r.beg r.size) (run_bytes rs),
  times-run word y r aligned (λ p. ground (
    arith,
    h r.beg,
    times-append r.beg (bytes_from r.beg r.size) (run_bytes rs),
    times-bytes_from r.beg r.beg r.size,
  )),
  times-runs word e rs y aligned
      (λ x. ground (arith, h x, times-append x (bytes_from r.beg r.size) (run_bytes rs))),
)

times-pieces :
    (word : SAddr) (e : Event) (f : WordFragment) (y : ℕ)
    → word ≡ align word
    → IsInWord f
    → times y (rf_bytes (reads_of e (pieces word f))) ≡ times y f
unfolding pieces
times-pieces word e f y aligned h =
    times-runs word e (runs f) y aligned (λ x. omega (arith, h x, ap (times x) (runs-IsSplit f).0))
    ∙ ap (times y) (runs-IsSplit f).0

reads_from-pieces :
    (word : SAddr) (e d : Event) (f : WordFragment)
    → is_nil f ≡ false
    → same e d ≡ true
    → reads_from e (reads_of d (pieces word f)) ≡ true
unfolding pieces reads_of reads_from run_bytes
reads_from-pieces word e d f h same_e = go (runs f) (runs-IsSplit f).0
  where
    go :
        (rs : List Run)
        → run_bytes rs ≡ f
        → reads_from e (map (λ (a : AAccess). (d, a)) (map (run_access word unsigned) rs)) ≡ true
    go [] q = absurd (ground (arith, h, ap is_nil q))
    go (r ∷ rs) q = ground arith

rf_bytes-append : (xs ys : RfsT) → rf_bytes (xs ++ ys) ≡ rf_bytes xs ++ rf_bytes ys
unfolding rf_bytes
rf_bytes-append [] ys = refl
rf_bytes-append (x ∷ xs) ys =
    ap (λ (l : List ℕ). fragment x.1 ++ l) (rf_bytes-append xs ys)
    ∙ sym (append_assoc (fragment x.1) (rf_bytes xs) (rf_bytes ys))

reads_from-append :
    (e : Event) (xs ys : RfsT) → reads_from e (xs ++ ys) ≡ (reads_from e xs || reads_from e ys)
unfolding reads_from
reads_from-append e [] ys = refl
reads_from-append e (x ∷ xs) ys = ground (arith, reads_from-append e xs ys)

is_listed-erase :
    (e d : Event) (m : List Event)
    → is_listed e m ≡ true
    → same e d ≡ false
    → is_listed e (erase d m) ≡ true
unfolding is_listed erase
is_listed-erase e d [] h n = h
is_listed-erase e d (x ∷ xs) h n = ground (arith, is_listed-erase e d xs)

IsInWord-subtract : (f g : WordFragment) → IsInWord f → IsInWord (subtract f g)
IsInWord-subtract f g h y = ground (arith, h y, times-subtract y f g)

IsInWord-overlap_of : (s : Store) (f : WordFragment) → IsInWord f → IsInWord (overlap_of s f)
IsInWord-overlap_of s f h y = omega (arith, h y, times-overlap_of s f y h)

-- A store is read on the overlap, and the rest is covered without it.
Covers-read :
    (word : SAddr) (s : Store) (f : WordFragment) (m : List Event) (rfs : RfsT)
    → word ≡ align word
    → IsInWord f
    → is_nil (overlap_of s f) ≡ false
    → Covers (subtract f (overlap_of s f)) (erase s.pos m) rfs
    → Covers f m (reads_of s.pos (pieces word (overlap_of s f)) ++ rfs)
Covers-read word s f m rfs aligned h o c = (
  λ y. omega (
    arith,
    ap (times y) (rf_bytes-append (reads_of s.pos (pieces word (overlap_of s f))) rfs),
    times-append y (rf_bytes (reads_of s.pos (pieces word (overlap_of s f)))) (rf_bytes rfs),
    times-pieces word s.pos (overlap_of s f) y aligned (IsInWord-overlap_of s f h),
    c.0 y,
    times-overlap_of s f y h,
  ),
  λ e. elim (Bool-cases (same e s.pos)) [
    | inl y ↦ ground (
      arith,
      reads_from-append e (reads_of s.pos (pieces word (overlap_of s f))) rfs,
      reads_from-pieces word e s.pos (overlap_of s f) o y,
    )
    | inr n ↦ ground (
      arith,
      reads_from-append e (reads_of s.pos (pieces word (overlap_of s f))) rfs,
      is_listed-erase e s.pos m,
      c.1 e,
    )
  ],
)

Covers-extend :
    (word : SAddr) (s : Store) (f : WordFragment) (m : List Event) (found : List RfsT)
    → word ≡ align word
    → IsInWord f
    → is_nil (overlap_of s f) ≡ false
    → All (Covers (subtract f (overlap_of s f)) (erase s.pos m)) found
    → All (Covers f m) (extend (reads_of s.pos (pieces word (overlap_of s f))) found)
unfolding extend
Covers-extend word s f m [] aligned h o c = tt
Covers-extend word s f m (x ∷ xs) aligned h o c =
    (Covers-read word s f m x aligned h o c.0, Covers-extend word s f m xs aligned h o c.1)

module _ (word : SAddr) (coherent : Store → AAccess → Bool) (aligned : word ≡ align word) where
  Covers-done :
      (f : WordFragment) (m : List Event) → is_nil f ≡ true → is_done m ≡ true → Covers f m []
  unfolding rf_bytes is_listed reads_from
  Covers-done [] [] n d = (λ y. refl, λ e. ground arith)
  Covers-done [] (x ∷ xs) n d = absurd (ground arith)
  Covers-done (x ∷ xs) m n d = absurd (ground arith)

  ways-Covers :
      (ss : List Store) (f : WordFragment) (m : List Event)
      → IsInWord f
      → All (Covers f m) (ways word coherent ss f m)
  unfolding ways
  ways-Covers [] f m h = elim (Bool-cases (is_nil f)) [
    | inl e ↦ elim (Bool-cases (is_done m)) [
      | inl d ↦ rw (e, d) (Covers-done f m e d, tt)
      | inr d ↦ rw (e, d) tt
    ]
    | inr e ↦ rw e tt
  ]
  ways-Covers (s ∷ ss) f m h = elim (Bool-cases (is_nil f)) [
    | inl e ↦ elim (Bool-cases (is_done m)) [
      | inl d ↦ rw (e, d) (Covers-done f m e d, tt)
      | inr d ↦ rw (e, d) tt
    ]
    | inr e ↦ elim (Bool-cases (is_nil (overlap_of s f))) [
      | inl o ↦ rw (e, o) (ways-Covers ss f m h)
      | inr o ↦ elim (Bool-cases (all_of (coherent s) (pieces word (overlap_of s f)))) [
        | inl c ↦
            rw (e, o, c)
              (All-append (Covers f m) _ _
                (Covers-extend word s f m _ aligned h o
                  (ways-Covers ss _ _ (IsInWord-subtract f (overlap_of s f) h)))
                (ways-Covers ss f m h))
        | inr c ↦ rw (e, o, c) (ways-Covers ss f m h)
      ]
    ]
  ]

-- An access that stays within the word of its address.
abbrev pub IsInOneWord : AAccess → Type 0
IsInOneWord a = get_byte a.addr + a.size ≤ 8

-- For an access within one word the enumeration returns, and each of its options reads every byte of the access once and
-- no other byte, and reads from every store that it must use.
pub enumerate_options-Covers :
    (coherent : Store → AAccess → Bool) (stores : List Store) (access : AAccess)
    (must_use : List Event)
    → IsInOneWord access
    → (options : List RfsT) × (enumerate_options coherent stores access must_use ≡ some options)
      × All (Covers (fragment access) must_use) options
enumerate_options-Covers coherent stores access must_use h = (
  _,
  enumerate_options-ways coherent stores access must_use,
  All-reverse (Covers (fragment access) must_use) _ (
      ways-Covers (align access.addr) coherent (align-align access.addr) stores (fragment access)
        must_use
        (λ y. ground (
          arith,
          h,
          times-fragment y access,
          times-bytes_from y (get_byte access.addr) access.size,
        ))),
)
