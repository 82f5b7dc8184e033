-- ===== src/Prelude/Bits.antt =====
-- `&` with a mask, `|` of disjoint fields and `^` as arithmetic, at every width. The native
-- operations recur on binary digits with fuel; `Digits` turns that into an equation for the lowest
-- digit.
mod Digits
pub use Digits.{bit_and_digit, bit_or_digit}
use native.Mathlib.Nat.{pow-suc, one-le-pow, div-div-eq-div-mul, mul_comm}
use Prim.Native.Nat.{
  ℕ, zero, suc, ◌+◌, ◌-◌, ◌*◌, ◌/◌, ◌%◌, ◌^◌, ◌≤◌, ◌<◌, bit_and, bit_or, bit_or-bitwise,
}
use mathlib.Core.Path.{◌≡◌, refl, ap, ◌∙◌}
use native.Mathlib.Omega.{arith}

right_zero_below : (n a : ℕ) → a ≤ n → (bit_and a 0 ≡ 0) × (bit_or a 0 ≡ a)
right_zero_below n zero h = (refl, refl)
right_zero_below zero (suc a) h = absurd (omega arith)
right_zero_below (suc n) (suc a) h = omega (
  arith,
  bit_and_digit (suc a) 0,
  bit_or_digit (suc a) 0,
  right_zero_below n (suc a / 2) (omega arith),
)

pub bit_and-zero : (a : ℕ) → bit_and a 0 ≡ 0
bit_and-zero a = (right_zero_below a a (omega arith)).0

pub bit_or-zero : (a : ℕ) → bit_or a 0 ≡ a
bit_or-zero a = (right_zero_below a a (omega arith)).1

scaled : (q k : ℕ) → q * 2 ^ suc k ≡ 2 * (q * 2 ^ k)
scaled q k = omega (arith, ap (λ (t : ℕ). q * t) (pow-suc 2 k))

-- `q << k | r` is a sum when `r` fits below.
pub bit_or-shifted : (k q r : ℕ) → r < 2 ^ k → bit_or (q * 2 ^ k) r ≡ q * 2 ^ k + r
bit_or-shifted zero q r h = ground (arith, bit_or-zero q)
bit_or-shifted (suc k) q r h = ground (
  arith,
  scaled q k,
  pow-suc 2 k,
  bit_or_digit (q * 2 ^ suc k) r,
  bit_or-shifted k q (r / 2) (omega (arith, pow-suc 2 k)),
)

-- `a & (((1 << m) - 1) << k)` keeps the `m` digits above the lowest `k`: first at `k = 0`.
low_digits : (m q r : ℕ) → r < 2 ^ m → bit_and (q * 2 ^ m + r) (2 ^ m - 1) ≡ r
low_digits zero q r h = ground (arith, bit_and-zero (q * 1 + r))
low_digits (suc m) q r h = ground (
  arith,
  scaled q m,
  pow-suc 2 m,
  one-le-pow m 2,
  bit_and_digit (q * 2 ^ suc m + r) (2 ^ suc m - 1),
  low_digits m q (r / 2) (omega (arith, pow-suc 2 m)),
)

pub bit_and_mask : (m a : ℕ) → bit_and a (2 ^ m - 1) ≡ a % 2 ^ m
bit_and_mask m a =
    ground
      (arith, one-le-pow m 2, low_digits m (a / 2 ^ m) (a % 2 ^ m) (omega (arith, one-le-pow m 2)))

half_first : (a k : ℕ) → a / 2 ^ suc k ≡ a / 2 / 2 ^ k
half_first a k = rw (div-div-eq-div-mul, pow-suc, mul_comm (2 ^ k) 2)

pub bit_and_field : (k m a : ℕ) → bit_and a ((2 ^ m - 1) * 2 ^ k) ≡ a / 2 ^ k % 2 ^ m * 2 ^ k
bit_and_field zero m a = ground (arith, bit_and_mask m a)
bit_and_field (suc k) m a = ground (
  arith,
  scaled (2 ^ m - 1) k,
  scaled (a / 2 / 2 ^ k % 2 ^ m) k,
  half_first a k,
  bit_and_digit a ((2 ^ m - 1) * 2 ^ suc k),
  bit_and_field k m (a / 2),
)

-- The same with the lower field first.
pub bit_or-onto : (k r q : ℕ) → r < 2 ^ k → bit_or r (q * 2 ^ k) ≡ r + q * 2 ^ k
bit_or-onto zero zero q h = bit_or-bitwise 0 (q * 1) ∙ omega arith
bit_or-onto zero (suc r) q h = absurd (omega arith)
bit_or-onto (suc k) r q h = ground (
  arith,
  scaled q k,
  pow-suc 2 k,
  bit_or_digit r (q * 2 ^ suc k),
  bit_or-onto k (r / 2) q (omega (arith, pow-suc 2 k)),
)

-- `|` with a number that is 0 below bit `k` leaves the bits there.
pub bit_or-above :
    (k a b r : ℕ) → r < 2 ^ k → bit_or (a * 2 ^ k + r) (b * 2 ^ k) ≡ bit_or a b * 2 ^ k + r
bit_or-above zero a b r h =
    let one : a * 1 + r ≡ a = omega arith in
    let two : b * 1 ≡ b = omega arith in rw (one, two) (omega arith)
bit_or-above (suc k) a b r h = ground (
  arith,
  scaled a k,
  scaled b k,
  scaled (bit_or a b) k,
  pow-suc 2 k,
  bit_or_digit (a * 2 ^ suc k + r) (b * 2 ^ suc k),
  bit_or-above k a b (r / 2) (omega (arith, pow-suc 2 k)),
)
