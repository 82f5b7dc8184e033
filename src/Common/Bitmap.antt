-- ===== src/Common/Bitmap.antt =====
-- common/common.c, bitmaps: `get_bit` and `set_bit` over an array of bytes. An access outside of
-- the array is a `fault`.
pub mod Laws
mod Tests
use create_an_os.Prelude.{
  ℕ, ◌+◌, ◌-◌, ◌*◌, ◌/◌, ◌%◌, ◌^◌, bit_and, bit_or, List, Outcome, ok, ◌>>=◌, read, write,
}

-- `(byte >> (idx & 0b111)) & 1`
unfoldable pub byte_bit : ℕ → ℕ → ℕ
byte_bit byte idx = bit_and (byte / 2 ^ bit_and idx 0b111) 1

-- `(byte & ~(1 << (idx & 0b111))) | (bit << (idx & 0b111))`, computed in `int` and stored as a byte.
unfoldable pub byte_with_bit : ℕ → ℕ → ℕ → ℕ
byte_with_bit byte idx bit =
    let mask = 2 ^ bit_and idx 0b111 in
    bit_or (bit_and byte (2 ^ 32 - 1 - mask)) (bit * mask) % 2 ^ 8

unfoldable pub get_bit : List ℕ → ℕ → Outcome ℕ
get_bit bitmap idx = do byte ← read bitmap (idx / 8); ok (byte_bit byte idx)

unfoldable pub set_bit : List ℕ → ℕ → ℕ → Outcome (List ℕ)
set_bit bitmap idx bit = do
  byte ← read bitmap (idx / 8)
  write bitmap (idx / 8) (byte_with_bit byte idx bit)
