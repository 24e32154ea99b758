-- ===== src/MemAccess/Fragments.antt =====
-- src/MemAccess.hpp: subtraction, intersection and the split of a fragment into accesses.
use rustmc.Prelude.{
  ℕ, zero, suc, ◌+◌, ◌<◌, ◌≡◌, refl, Bool, not, ◌&&◌, List, [], ◌∷◌, ◌++◌, if◌then◌else◌, ◌==◌,
  arith, ap, sym, ltb, leb, ◌≢◌, ◌∙◌, Bool-cases, inl, inr,
}
use rustmc.SAddr.{get_byte}
use rustmc.MemAccess.{
  AAccess, fragment, get_overlap, bytes_from, has, keep, subtract, intersect, Run, run_from, runs,
}

-- How often a byte stands in a list.
unfoldable pub times : ℕ → List ℕ → ℕ
times y [] = 0
times y (x ∷ xs) = (if y == x then 1 else 0) + times y xs

pub times-append : (y : ℕ) (xs ys : List ℕ) → times y (xs ++ ys) ≡ times y xs + times y ys
unfolding times
times-append y [] ys = omega arith
times-append y (x ∷ xs) ys = omega (arith, times-append y xs ys)

-- The bytes of runs, in order.
unfoldable pub run_bytes : List Run → List ℕ
run_bytes [] = []
run_bytes (r ∷ rs) = bytes_from r.beg r.size ++ run_bytes rs

snoc_bytes :
    (first n : ℕ) (xs : List ℕ)
    → bytes_from first n ++ (first + n) ∷ xs ≡ bytes_from first (suc n) ++ xs
unfolding bytes_from
snoc_bytes first zero xs = ap (λ (b : ℕ). b ∷ xs) (omega arith)
snoc_bytes first (suc n) xs =
    ap (λ (l : List ℕ). first ∷ l)
      (ap (λ (b : ℕ). bytes_from (suc first) n ++ b ∷ xs) (omega arith)
        ∙ snoc_bytes (suc first) n xs)

run_from-bytes :
    (beg size : ℕ) (xs : List ℕ) → run_bytes (run_from beg size xs) ≡ bytes_from beg size ++ xs
unfolding run_from run_bytes bytes_from
run_from-bytes beg size [] = refl
run_from-bytes beg size (x ∷ xs) = elim (Bool-cases (x == beg + size)) [
  | inl e ↦ rw e (
      run_from-bytes beg (suc size) xs
      ∙ sym (
          ap (λ (b : ℕ). bytes_from beg size ++ b ∷ xs) {x = x} {y = beg + size} (ground arith)
          ∙ snoc_bytes beg size xs))
  | inr e ↦ rw e (ap (λ (l : List ℕ). bytes_from beg size ++ l) (run_from-bytes x 1 xs))
]

-- No run is empty, the first does not begin at `end`, and no other begins where the one before it ends.
abbrev pub Apart : ℕ → List Run → Type 0
Apart end [] = Unit {0}
Apart end (r ∷ rs) = (r.beg ≢ end) × (0 < r.size) × Apart (r.beg + r.size) rs

run_from-Apart :
    (end beg size : ℕ) (xs : List ℕ) → beg ≢ end → 0 < size → Apart end (run_from beg size xs)
unfolding run_from
run_from-Apart end beg size [] n p = (n, p, tt)
run_from-Apart end beg size (x ∷ xs) n p = elim (Bool-cases (x == beg + size)) [
  | inl e ↦ rw e (run_from-Apart end beg (suc size) xs n (omega arith))
  | inr e ↦ rw e (n, p, run_from-Apart (beg + size) x 1 xs (ground arith) (omega arith))
]

-- Every run has a byte, and none continues the one before it.
abbrev pub IsMaximal : List Run → Type 0
IsMaximal [] = Unit {0}
IsMaximal (r ∷ rs) = (0 < r.size) × Apart (r.beg + r.size) rs

IsMaximal-of_Apart : (end : ℕ) (rs : List Run) → Apart end rs → IsMaximal rs
IsMaximal-of_Apart end [] h = tt
IsMaximal-of_Apart end (r ∷ rs) h = (h.1, h.2)

-- The bytes of the runs are those of the fragment, in order, and each run is as long as can be.
abbrev pub IsSplit : List ℕ → List Run → Type 0
IsSplit f rs = (run_bytes rs ≡ f) × IsMaximal rs

-- The accesses into which `getAccesses` cuts a fragment take its bytes in order, and are as long as
-- can be: none is empty, and none begins where the one before it ends.
pub runs-IsSplit : (f : List ℕ) → IsSplit f (runs f)
unfolding runs run_bytes bytes_from
runs-IsSplit [] = (refl, tt)
runs-IsSplit (x ∷ xs) = (
  run_from-bytes x 1 xs,
  IsMaximal-of_Apart (suc x) _
      (run_from-Apart (suc x) x 1 xs (λ e. omega (arith, e)) (omega arith)),
)

pub has-times : (y : ℕ) (xs : List ℕ) → has y xs ≡ ltb 0 (times y xs)
unfolding has times
has-times y [] = ground arith
has-times y (x ∷ xs) = ground (arith, has-times y xs)

times-keep :
    (y : ℕ) (p : ℕ → Bool) (xs : List ℕ) → times y (keep p xs) ≡ (if p y then times y xs else 0)
unfolding times keep
times-keep y p [] = ground arith
times-keep y p (x ∷ xs) = ground (arith, times-keep y p xs, ap p {x = x} {y = y})

pub times-subtract :
    (y : ℕ) (f g : List ℕ) → times y (subtract f g) ≡ (if has y g then 0 else times y f)
unfolding subtract
times-subtract y f g = ground (arith, times-keep y (λ x. not (has x g)) f)

pub times-intersect :
    (y : ℕ) (f g : List ℕ) → times y (intersect f g) ≡ (if has y g then times y f else 0)
unfolding intersect
times-intersect y f g = times-keep y (λ x. has x g) f

pub times-bytes_from :
    (y first n : ℕ)
    → times y (bytes_from first n) ≡ (if leb first y && ltb y (first + n) then 1 else 0)
unfolding times bytes_from
times-bytes_from y first zero = ground arith
times-bytes_from y first (suc n) = ground (arith, times-bytes_from y (suc first) n)

pub times-fragment :
    (y : ℕ) (a : AAccess) → times y (fragment a) ≡ times y (bytes_from (get_byte a.addr) a.size)
unfolding fragment
times-fragment y a = refl

pub times-get_overlap :
    (y : ℕ) (a : AAccess) (f : List ℕ)
    → times y (get_overlap a f) ≡ (if has y f then times y (fragment a) else 0)
unfolding get_overlap
times-get_overlap y a f = times-intersect y (fragment a) f
