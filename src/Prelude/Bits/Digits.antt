-- ===== src/Prelude/Bits/Digits.antt =====
-- The native operations on binary digits, one digit at a time.
use Prim.Native.Nat.{min, max, digits, bitwise, bit_and-bitwise, bit_or-bitwise}
use Prim.Native.Nat.{ℕ, zero, suc, ◌+◌, ◌*◌, ◌/◌, ◌%◌, ◌≤◌, bit_and, bit_or}
use mathlib.Core.Path.{◌≡◌, refl, ap}
use native.Mathlib.Omega.{arith}

module _ (z : ℕ → ℕ) (op : ℕ → ℕ → ℕ) where
  -- Any two amounts of fuel that cover the first number give one result.
  any_fuel : (m n a b : ℕ) → a ≤ m → a ≤ n → digits z op n a b ≡ digits z op m a b
  any_fuel zero zero a b hm hn = refl
  any_fuel (suc m) zero zero b hm hn = refl
  any_fuel (suc m) zero (suc a) b hm hn = absurd (omega arith)
  any_fuel zero (suc n) zero b hm hn = refl
  any_fuel zero (suc n) (suc a) b hm hn = absurd (omega arith)
  any_fuel (suc m) (suc n) zero b hm hn = refl
  any_fuel (suc m) (suc n) (suc a) b hm hn =
      ap (λ r. r * 2 + op (suc a % 2) (b % 2))
        (any_fuel m n (suc a / 2) (b / 2) (omega arith) (omega arith))

  lowest :
      (a b : ℕ)
      → bitwise z op (suc a) b ≡ bitwise z op (suc a / 2) (b / 2) * 2 + op (suc a % 2) (b % 2)
  lowest a b =
      ap (λ r. r * 2 + op (suc a % 2) (b % 2))
        (any_fuel (suc a / 2) a (suc a / 2) (b / 2) (omega arith) (omega arith))

pub bit_and_digit : (a b : ℕ) → bit_and a b ≡ bit_and (a / 2) (b / 2) * 2 + min (a % 2) (b % 2)
bit_and_digit zero b = rw (bit_and-bitwise 0 b, bit_and-bitwise 0 (b / 2)) (omega arith)
bit_and_digit (suc a) b =
    rw (bit_and-bitwise (suc a) b, bit_and-bitwise (suc a / 2) (b / 2)) (lowest (λ r. 0) min a b)

pub bit_or_digit : (a b : ℕ) → bit_or a b ≡ bit_or (a / 2) (b / 2) * 2 + max (a % 2) (b % 2)
bit_or_digit zero b = rw (bit_or-bitwise 0 b, bit_or-bitwise 0 (b / 2)) (omega arith)
bit_or_digit (suc a) b =
    rw (bit_or-bitwise (suc a) b, bit_or-bitwise (suc a / 2) (b / 2)) (lowest (λ r. r) max a b)
