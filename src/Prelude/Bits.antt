-- ===== src/Prelude/Bits.antt =====
-- The masks and fields of machine words, at every width, from the digits of a number.
use Prim.Native.Nat.{
  ℕ, zero, suc, ◌+◌, ◌-◌, ◌*◌, ◌/◌, ◌%◌, ◌^◌, ◌≤◌, ◌<◌, min, max, bit_and, bit_or, bit_xor, digits,
  differ, bit_and-bitwise, bit_or-bitwise, bit_xor-bitwise,
}
use mathlib.Core.Path.{◌≡◌, refl, ap, ◌∙◌}
use native.Mathlib.Omega.{arith}
use native.Mathlib.Nat.{
  pow-suc, one-le-pow, div-div-eq-div-mul, div-add-mod', add-mul-mod_self_right, mod-eq_of_lt,
  mod-lt,
}

-- Any count of rounds that is large enough gives the same digits.
more_rounds :
    (z : ℕ → ℕ) (f : ℕ → ℕ → ℕ) (m n a b : ℕ) → a ≤ m → a ≤ n → digits z f m a b ≡ digits z f n a b
more_rounds z f zero zero a b p q = refl
more_rounds z f zero (suc n) zero b p q = refl
more_rounds z f zero (suc n) (suc a) b p q = absurd (omega arith)
more_rounds z f (suc m) zero zero b p q = refl
more_rounds z f (suc m) zero (suc a) b p q = absurd (omega arith)
more_rounds z f (suc m) (suc n) zero b p q = refl
more_rounds z f (suc m) (suc n) (suc a) b p q =
    ap (λ (t : ℕ). t * 2 + f (suc a % 2) (b % 2))
      (more_rounds z f m n (suc a / 2) (b / 2) (omega arith) (omega arith))

pub bit_and_step : (a b : ℕ) → bit_and a b ≡ bit_and (a / 2) (b / 2) * 2 + min (a % 2) (b % 2)
bit_and_step zero b = omega (arith, bit_and-bitwise 0 b, bit_and-bitwise 0 (b / 2))
bit_and_step (suc a) b = omega (
  arith,
  bit_and-bitwise (suc a) b,
  bit_and-bitwise (suc a / 2) (b / 2),
  more_rounds (λ b. zero) min a (suc a / 2) (suc a / 2) (b / 2) (omega arith) (omega arith),
)

pub bit_or_step : (a b : ℕ) → bit_or a b ≡ bit_or (a / 2) (b / 2) * 2 + max (a % 2) (b % 2)
bit_or_step zero b = omega (arith, bit_or-bitwise 0 b, bit_or-bitwise 0 (b / 2))
bit_or_step (suc a) b = omega (
  arith,
  bit_or-bitwise (suc a) b,
  bit_or-bitwise (suc a / 2) (b / 2),
  more_rounds (λ b. b) max a (suc a / 2) (suc a / 2) (b / 2) (omega arith) (omega arith),
)

bit_or-zero_below : (n a : ℕ) → a ≤ n → bit_or a 0 ≡ a
bit_or-zero_below n zero h = refl
bit_or-zero_below zero (suc a) h = absurd (omega arith)
bit_or-zero_below (suc n) (suc a) h =
    omega (arith, bit_or_step (suc a) 0, bit_or-zero_below n (suc a / 2) (omega arith))

bit_and-zero_below : (n a : ℕ) → a ≤ n → bit_and a 0 ≡ 0
bit_and-zero_below n zero h = refl
bit_and-zero_below zero (suc a) h = absurd (omega arith)
bit_and-zero_below (suc n) (suc a) h =
    omega (arith, bit_and_step (suc a) 0, bit_and-zero_below n (suc a / 2) (omega arith))

shift_up : (c k : ℕ) → c * 2 ^ suc k ≡ c * 2 ^ k * 2
shift_up c k = omega (arith, ap (λ (t : ℕ). c * t) (pow-suc 2 k))

-- A field above `k` bits and a value that fits them do not meet.
pub bit_or_above : (k c v : ℕ) → v < 2 ^ k → bit_or (c * 2 ^ k) v ≡ c * 2 ^ k + v
bit_or_above zero c v h = omega (
  arith,
  ap (bit_or (c * 1)) {x = v} {y = 0} (omega arith),
  bit_or-zero_below (c * 1) (c * 1) (omega arith),
)
bit_or_above (suc k) c v h = omega (
  arith,
  bit_or_step (c * 2 ^ suc k) v,
  shift_up c k,
  ap (λ (t : ℕ). bit_or t (v / 2)) {x = c * 2 ^ suc k / 2} {y = c * 2 ^ k}
      (omega (arith, shift_up c k)),
  bit_or_above k c (v / 2) (omega (arith, pow-suc 2 k)),
)

-- The remainder by twice `p`, one digit at a time.
mod_double : (x p : ℕ) → 0 < p → x % (p * 2) ≡ x / 2 % p * 2 + x % 2
mod_double x p h =
    ap (λ (t : ℕ). t % (p * 2)) {x = x} {y = x / 2 % p * 2 + x % 2 + x / 2 / p * (p * 2)}
      (omega (arith, div-add-mod' (x / 2) p))
    ∙ add-mul-mod_self_right (x / 2 % p * 2 + x % 2) (x / 2 / p) (p * 2)
    ∙ mod-eq_of_lt (omega (arith, mod-lt (x / 2) h))

-- A mask of `n` low bits.
pub bit_and_low : (n x : ℕ) → bit_and x (2 ^ n - 1) ≡ x % 2 ^ n
bit_and_low zero x = omega (arith, bit_and-zero_below x x (omega arith))
bit_and_low (suc n) x = omega (
  arith,
  bit_and_step x (2 ^ suc n - 1),
  pow-suc 2 n,
  one-le-pow n 2 (omega arith),
  ap (bit_and (x / 2)) {x = (2 ^ suc n - 1) / 2} {y = 2 ^ n - 1}
      (omega (arith, pow-suc 2 n, one-le-pow n 2 (omega arith))),
  bit_and_low n (x / 2),
  mod_double x (2 ^ n) (omega (arith, one-le-pow n 2 (omega arith))),
  ap (λ (t : ℕ). x % t) (pow-suc 2 n),
)

-- A mask that is shifted by `k` reads the digits from the k-th on.
pub bit_and_shifted : (k m x : ℕ) → bit_and x (m * 2 ^ k) ≡ bit_and (x / 2 ^ k) m * 2 ^ k
bit_and_shifted zero m x = omega (
  arith,
  ap (bit_and x) {x = m * 1} {y = m} (omega arith),
  ap (λ (t : ℕ). bit_and t m) {x = x / 1} {y = x} (omega arith),
)
bit_and_shifted (suc k) m x = omega (
  arith,
  bit_and_step x (m * 2 ^ suc k),
  shift_up m k,
  ap (bit_and (x / 2)) {x = m * 2 ^ suc k / 2} {y = m * 2 ^ k} (omega (arith, shift_up m k)),
  bit_and_shifted k m (x / 2),
  shift_up (bit_and (x / 2 ^ suc k) m) k,
  ap (λ (t : ℕ). bit_and t m * 2 ^ k) {x = x / 2 / 2 ^ k} {y = x / 2 ^ suc k}
      (div-div-eq-div-mul x 2 (2 ^ k) ∙ ap (λ (t : ℕ). x / t) (omega (arith, pow-suc 2 k))),
)

bit_xor_step : (a b : ℕ) → bit_xor a b ≡ bit_xor (a / 2) (b / 2) * 2 + differ (a % 2) (b % 2)
bit_xor_step zero b = omega (arith, bit_xor-bitwise 0 b, bit_xor-bitwise 0 (b / 2))
bit_xor_step (suc a) b = omega (
  arith,
  bit_xor-bitwise (suc a) b,
  bit_xor-bitwise (suc a / 2) (b / 2),
  more_rounds (λ b. b) differ a (suc a / 2) (suc a / 2) (b / 2) (omega arith) (omega arith),
)

differ-le : (x y m : ℕ) → x ≤ m → y ≤ m → differ x y ≤ m
differ-le zero y m g h = h
differ-le (suc x) zero m g h = g
differ-le (suc x) (suc y) m g h = omega (arith, differ-le x y (m - 1) (omega arith) (omega arith))

-- The three operations stay within the width of their arguments.
pub bit_and-lt : (n a b : ℕ) → a < 2 ^ n → b < 2 ^ n → bit_and a b < 2 ^ n
bit_and-lt zero a b g h =
    omega (arith, ap (λ (t : ℕ). bit_and t b) {x = a} {y = 0} (omega arith), bit_and-bitwise 0 b)
bit_and-lt (suc n) a b g h = omega (
  arith,
  pow-suc 2 n,
  bit_and_step a b,
  bit_and-lt n (a / 2) (b / 2) (omega (arith, pow-suc 2 n)) (omega (arith, pow-suc 2 n)),
)

pub bit_or-lt : (n a b : ℕ) → a < 2 ^ n → b < 2 ^ n → bit_or a b < 2 ^ n
bit_or-lt zero a b g h =
    omega (arith, ap (λ (t : ℕ). bit_or t b) {x = a} {y = 0} (omega arith), bit_or-bitwise 0 b)
bit_or-lt (suc n) a b g h = omega (
  arith,
  pow-suc 2 n,
  bit_or_step a b,
  bit_or-lt n (a / 2) (b / 2) (omega (arith, pow-suc 2 n)) (omega (arith, pow-suc 2 n)),
)

pub bit_xor-lt : (n a b : ℕ) → a < 2 ^ n → b < 2 ^ n → bit_xor a b < 2 ^ n
bit_xor-lt zero a b g h =
    omega (arith, ap (λ (t : ℕ). bit_xor t b) {x = a} {y = 0} (omega arith), bit_xor-bitwise 0 b)
bit_xor-lt (suc n) a b g h = omega (
  arith,
  pow-suc 2 n,
  bit_xor_step a b,
  differ-le (a % 2) (b % 2) 1 (omega arith) (omega arith),
  bit_xor-lt n (a / 2) (b / 2) (omega (arith, pow-suc 2 n)) (omega (arith, pow-suc 2 n)),
)
