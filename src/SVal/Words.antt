-- ===== src/SVal/Words.antt =====
-- src/SVal.hpp: the operations as operations on 64-bit words.
use native.Mathlib.Nat.{
  mod-lt, mod-le, div-le_self, div-add-mod', add-mul-mod_self_right, mod-eq_of_lt, one-le-pow,
  pow-suc, mul-div_left, div-eq_of_lt-le, mul-lt-mul_of_pos_right, mul-le-mul_right, mul_assoc,
  mul_comm, add-mul, le-mul_of_pos_right,
}
use rustmc.Prelude.Bits.{bit_and-lt, bit_or-lt, bit_xor-lt}
use rustmc.Prelude.{
  ℕ, zero, suc, ◌+◌, ◌-◌, ◌*◌, ◌/◌, ◌%◌, ◌^◌, ◌<◌, ◌≤◌, ◌≡◌, sym, ap, ◌∙◌, Option, some, ltb,
  ltb→lt, Bool-cases, inl, inr, if◌then◌else◌, shift_right, arith,
}
use rustmc.SVal.{
  SVal, get_signed, to_value, sign_extend_bottom, Operator, plus, minus, times, div, rem, band, bor,
  bxor, shl, shr, apply,
}

-- Whatever an operator answers on two words is a word.
pub apply-lt :
    (o : Operator) (a b v : SVal) → a < 2 ^ 64 → b < 2 ^ 64 → apply o a b ≡ some v → v < 2 ^ 64
unfolding apply
apply-lt plus a b v g h e = ground arith
apply-lt minus a b v g h e = ground arith
apply-lt times a b v g h e = ground (arith, mod-lt (a * b) {m = 2 ^ 64} (omega arith))
apply-lt div a b v g h e = ground (arith, div-le_self a b)
apply-lt rem a b v g h e = ground (arith, mod-le a b)
apply-lt band a b v g h e = ground (arith, bit_and-lt 64 a b g h)
apply-lt bor a b v g h e = ground (arith, bit_or-lt 64 a b g h)
apply-lt bxor a b v g h e = ground (arith, bit_xor-lt 64 a b g h)
apply-lt shl a b v g h e = ground (arith, mod-lt (a * 2 ^ b) {m = 2 ^ 64} (omega arith))
apply-lt shr a b v g h e = ground (arith, div-le_self a (2 ^ b))

pow-add : (m n : ℕ) → 2 ^ (m + n) ≡ 2 ^ m * 2 ^ n
pow-add zero n = omega (arith, ap (λ (t : ℕ). 2 ^ t) {x = 0 + n} {y = n} (omega arith))
pow-add (suc m) n = omega (
  arith,
  pow-add m n,
  ap (λ (t : ℕ). 2 ^ t) {x = suc m + n} {y = suc (m + n)} (omega arith),
  pow-suc 2 (m + n),
  ap (λ (t : ℕ). t * 2 ^ n) (pow-suc 2 m),
  mul_assoc (2 ^ m) 2 (2 ^ n),
  mul_assoc (2 ^ m) (2 ^ n) 2,
  ap (λ (t : ℕ). 2 ^ m * t) (mul_comm 2 (2 ^ n)),
)

-- The digits from the b-th on leave the word when `b` low ones are moved to its top.
shift_to_top : (v p q : ℕ) → 0 < p → 0 < q → p * q ≡ 2 ^ 64 → v * q % 2 ^ 64 ≡ v % p * q
shift_to_top v p q g h e =
    ap (λ (t : ℕ). t % 2 ^ 64) {x = v * q} {y = v % p * q + v / p * 2 ^ 64}
      (omega (
        arith,
        ap (λ (t : ℕ). t * q) (div-add-mod' v p),
        add-mul (v / p * p) (v % p) q,
        mul_assoc (v / p) p q,
        ap (λ (t : ℕ). v / p * t) e,
      ))
    ∙ add-mul-mod_self_right (v % p * q) (v / p) (2 ^ 64)
    ∙ mod-eq_of_lt
        (omega (arith, e, mul-lt-mul_of_pos_right {m = v % p} {n = p} {k = q} (mod-lt v g) h))

-- The complement of a field at the top of the word, moved to its bottom.
shift_complement : (s q m : ℕ) → 0 < s → 0 < q → s * q ≡ suc m → s ≡ suc (m / q)
shift_complement zero q m g h e = elim g [ ]
shift_complement (suc r) q m g h e =
    ap suc (
      sym (div-eq_of_lt-le {k = r} q (omega (arith, add-mul r 1 q)) (omega (arith, add-mul r 1 q))))

-- The way back, from the top of the word with the sign.
shift_from_top :
    (p k low : ℕ)
    → p * 2 ^ k ≡ 2 ^ 63
    → low < p * 2
    → to_value (shift_right (get_signed (low * 2 ^ k)) k)
      ≡ (if ltb low p then low else 2 ^ 64 - p * 2 + low)
unfolding get_signed to_value
shift_from_top p k low e h = elim (Bool-cases (ltb low p)) [
  | inl y ↦ ground (
    arith,
    y,
    mul-lt-mul_of_pos_right {m = low} {n = p} {k = 2 ^ k} (ltb→lt low p y)
        (one-le-pow k 2 (omega arith)),
    mul-div_left low {n = 2 ^ k} (one-le-pow k 2 (omega arith)),
    le-mul_of_pos_right p (one-le-pow k 2 (omega arith)),
  )
  | inr n ↦
      let le : p ≤ low = ground (arith, n) in
      let pos : 0 < 2 ^ k = one-le-pow k 2 (omega arith) in
      let sum : (p * 2 - low) * 2 ^ k + low * 2 ^ k ≡ 2 ^ 64 = omega (
        arith,
        e,
        sym (add-mul (p * 2 - low) low (2 ^ k)),
        ap (λ (t : ℕ). t * 2 ^ k) {x = p * 2 - low + low} {y = p + p} (omega arith),
        add-mul p p (2 ^ k),
      ) in
      let less : low * 2 ^ k < 2 ^ 64 = omega (arith, sum, le-mul_of_pos_right (p * 2 - low) pos) in
      ground (
        arith,
        n,
        le-mul_of_pos_right p pos,
        mul-le-mul_right (2 ^ k) le,
        shift_complement (p * 2 - low) (2 ^ k) (2 ^ 64 - 1 - low * 2 ^ k) (omega arith) pos
            (omega arith),
      )
]

-- Within the width nothing is aborted.
sign_extend_bottom-guarded :
    (v : SVal) (b k : ℕ)
    → 0 < b
    → b + k ≡ 64
    → sign_extend_bottom v b ≡ some (to_value (shift_right (get_signed (v * 2 ^ k % 2 ^ 64)) k))
unfolding sign_extend_bottom
sign_extend_bottom-guarded v b k h e =
    let word : ℕ → Option SVal =
      λ n. some (to_value (shift_right (get_signed (v * 2 ^ n % 2 ^ 64)) n)) in
    let same : word (64 - b) ≡ word k = ap word {x = 64 - b} {y = k} (omega arith) in
    ground (arith, same)

-- Sign extension from `b = c + 1` bits, at most 64, keeps these bits and, when the top one of them is
-- set, sets all the bits above.
pub sign_extend_bottom_lem :
    (v : SVal) (c : ℕ)
    → c < 64
    → sign_extend_bottom v (suc c)
      ≡ some (
          if ltb (v % 2 ^ suc c) (2 ^ c) then v % 2 ^ suc c else 2 ^ 64 - 2 ^ suc c + v % 2 ^ suc c)
sign_extend_bottom_lem v c h =
    let k = 63 - c in
    let low = v % 2 ^ suc c in
    let pos : 0 < 2 ^ suc c = one-le-pow (suc c) 2 (omega arith) in
    let half : 2 ^ c * 2 ^ k ≡ 2 ^ 63 =
      sym (pow-add c k) ∙ ap (λ (t : ℕ). 2 ^ t) {x = c + k} {y = 63} (omega arith) in
    let whole : 2 ^ suc c * 2 ^ k ≡ 2 ^ 64 =
      sym (pow-add (suc c) k) ∙ ap (λ (t : ℕ). 2 ^ t) {x = suc c + k} {y = 64} (omega arith) in
    sign_extend_bottom-guarded v (suc c) k (omega arith) (omega arith)
    ∙ ap (λ t. some (to_value (shift_right (get_signed t) k)))
        (shift_to_top v (2 ^ suc c) (2 ^ k) pos (one-le-pow k 2 (omega arith)) whole)
    ∙ ap some (shift_from_top (2 ^ c) k low half (omega (arith, pow-suc 2 c, mod-lt v pos)))
    ∙ ap (λ (t : ℕ). some (if ltb low (2 ^ c) then low else 2 ^ 64 - t + low)) (sym (pow-suc 2 c))
