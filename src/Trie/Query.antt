-- ===== src/Trie/Query.antt =====
-- src/Trie.hpp, query: how a sequence and a label relate, by the part that they have in common.
use rustmc.Prelude.{
  ℕ, ◌<◌, ◌≡◌, ◌≢◌, refl, ap, subst, ◌⊎◌, inl, inr, Bool-cases, List, [], ◌∷◌, ◌++◌, none, some,
  ◌==◌, ==_iff, ◌>>=◌, length, length-append, take, drop, arith,
}
use rustmc.Trie.{
  common, query, same, string_is_prefix, label_is_prefix, have_common_part, as_result,
}
use rustmc.Trie.Find.{strip}

-- The four ways in which a sequence and a label relate.
abbrev pub Parts : List ℕ → List ℕ → Type 0
Parts s l =
    (s ≡ l)
    ⊎ ((x : ℕ) × (r : List ℕ) × (l ≡ s ++ x ∷ r))
    ⊎ ((x : ℕ) × (r : List ℕ) × (s ≡ l ++ x ∷ r))
    ⊎ ((c : List ℕ) × (x : ℕ) × (r : List ℕ) × (y : ℕ) × (q : List ℕ) × (s ≡ c ++ x ∷ r)
        × (l ≡ c ++ y ∷ q)
        × (x ≢ y))

Parts-cons : (z : ℕ) (s l : List ℕ) → Parts s l → Parts (z ∷ s) (z ∷ l)
Parts-cons z s l (inl e) = inl (ap (λ t. z ∷ t) e)
Parts-cons z s l (inr (inl (x, r, e))) = inr (inl (x, r, ap (λ t. z ∷ t) e))
Parts-cons z s l (inr (inr (inl (x, r, e)))) = inr (inr (inl (x, r, ap (λ t. z ∷ t) e)))
Parts-cons z s l (inr (inr (inr (c, x, r, y, q, e, d, n)))) =
    inr (inr (inr (z ∷ c, x, r, y, q, ap (λ t. z ∷ t) e, ap (λ t. z ∷ t) d, n)))

pub parts : (s l : List ℕ) → Parts s l
parts [] [] = inl refl
parts [] (y ∷ l) = inr (inl (y, l, refl))
parts (x ∷ s) [] = inr (inr (inl (x, s, refl)))
parts (x ∷ s) (y ∷ l) = elim (Bool-cases (x == y)) [
  | inl e ↦ subst (λ k. Parts (x ∷ s) (k ∷ l)) ((==_iff x y).0 e) (Parts-cons x s l (parts s l))
  | inr n ↦ inr (inr (inr ([], x, s, y, l, refl, refl, λ e. ground (arith, n, e))))
]

common_self : (s : List ℕ) → common s s ≡ length s
unfolding common
common_self [] = refl
common_self (x ∷ s) = ground (arith, common_self s)

common-longer : (s r : List ℕ) → common s (s ++ r) ≡ length s
unfolding common
common-longer [] r = refl
common-longer (x ∷ s) r = ground (arith, common-longer s r)

common-shorter : (s r : List ℕ) → common (s ++ r) s ≡ length s
unfolding common
common-shorter [] [] = refl
common-shorter [] (x ∷ r) = refl
common-shorter (x ∷ s) r = ground (arith, common-shorter s r)

pub common-parting :
    (c : List ℕ) (x y : ℕ) (r q : List ℕ) → x ≢ y → common (c ++ x ∷ r) (c ++ y ∷ q) ≡ length c
unfolding common
common-parting [] x y r q n = ground (arith, n)
common-parting (z ∷ c) x y r q n = ground (arith, common-parting c x y r q n)

pub query_self : (s : List ℕ) → query s s ≡ same
unfolding query
query_self s = ground (arith, common_self s)

pub query-longer : (s : List ℕ) (x : ℕ) (r : List ℕ) → query s (s ++ x ∷ r) ≡ string_is_prefix
unfolding query
query-longer s x r = ground (arith, common-longer s (x ∷ r), length-append s (x ∷ r))

pub query-shorter : (l : List ℕ) (x : ℕ) (r : List ℕ) → query (l ++ x ∷ r) l ≡ label_is_prefix
unfolding query
query-shorter l x r = ground (arith, common-shorter l (x ∷ r), length-append l (x ∷ r))

-- Common parts of up to 127 values are told from the other results.
pub query-parting :
    (c : List ℕ) (x y : ℕ) (r q : List ℕ)
    → x ≢ y
    → 0 < length c
    → length c < 128
    → query (c ++ x ∷ r) (c ++ y ∷ q) ≡ have_common_part (length c)
unfolding query as_result
query-parting c x y r q n g h =
    ground (arith, common-parting c x y r q n, length-append c (x ∷ r), length-append c (y ∷ q))

pub strip-append : (a b t : List ℕ) → strip (a ++ b) t ≡ (strip a t >>= strip b)
unfolding strip
strip-append [] b t = refl
strip-append (x ∷ a) b [] = refl
strip-append (x ∷ a) b (y ∷ t) = ground (arith, strip-append a b t)

pub strip_self : (l r : List ℕ) → strip l (l ++ r) ≡ some r
unfolding strip
strip_self [] r = refl
strip_self (x ∷ l) r = ground (arith, strip_self l r)

pub strip-longer : (s : List ℕ) (x : ℕ) (r : List ℕ) → strip (s ++ x ∷ r) s ≡ none
unfolding strip
strip-longer [] x r = refl
strip-longer (y ∷ s) x r = ground (arith, strip-longer s x r)

pub strip-parting :
    (c : List ℕ) (x y : ℕ) (r q : List ℕ) → x ≢ y → strip (c ++ y ∷ q) (c ++ x ∷ r) ≡ none
unfolding strip
strip-parting [] x y r q n = ground (arith, n)
strip-parting (z ∷ c) x y r q n = ground (arith, strip-parting c x y r q n)

pub drop-append : (l r : List ℕ) → drop (length l) (l ++ r) ≡ r
drop-append [] r = refl
drop-append (x ∷ l) r = drop-append l r

pub take-append : (l r : List ℕ) → take (length l) (l ++ r) ≡ l
take-append [] r = refl
take-append (x ∷ l) r = ap (λ t. x ∷ t) (take-append l r)
