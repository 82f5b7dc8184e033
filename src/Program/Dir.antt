-- ===== src/Program/Dir.antt =====
-- program/dir/dir.c: how sizes are printed, in a field of blanks. Where a digit goes is the number of
-- places that are left in front of it.
pub mod Decimal
mod Tests
use create_an_os.Prelude.{
  ℕ, zero, suc, ◌+◌, ◌/◌, ◌%◌, ◌^◌, List, [], ◌∷◌, ◌++◌, replicate, ltb, ◌==◌, if◌then◌else◌,
  Outcome, ok, fault, ◌>>=◌, write,
}

-- The loop, from the last place on.
unfoldable pub put_number : ℕ → ℕ → List ℕ → Outcome (List ℕ)
put_number zero size str = if size == 0 then ok str else fault
put_number (suc p) size str =
    let digit = write str p (b'0' + size % 10) >>= put_number p (size / 10) in
    if size == 0 then ok str else digit

-- The rest of the array, behind the place of the last digit.
abbrev pub unit_text : List ℕ
unit_text = b' ' ∷ b'b' ∷ b'y' ∷ b't' ∷ b'e' ∷ b' ' ∷ 0 ∷ []

-- `int size`: nothing is printed of a negative number.
unfoldable pub size_text : ℕ → Outcome (List ℕ)
size_text size =
    put_number 18 (if ltb size (2 ^ 31) then size else 0) (replicate 18 b' ' ++ unit_text)
