-- ===== src/Common/Bitmap/Tests.antt =====
-- Bitmaps at concrete inputs.
use create_an_os.Prelude.{ℕ, ◌≡◌, refl, List, [], ◌∷◌, ok, read, write}
use create_an_os.Common.Bitmap.{byte_bit, byte_with_bit, get_bit, set_bit}

abbrev two_bytes : List ℕ
two_bytes = 0x0f ∷ 0x81 ∷ []

bit_15 : get_bit two_bytes 15 ≡ ok 1
unfolding get_bit byte_bit read
bit_15 = refl

clear_15 : set_bit two_bytes 15 0 ≡ ok (0x0f ∷ 0x01 ∷ [])
unfolding set_bit byte_with_bit read write
clear_15 = refl
