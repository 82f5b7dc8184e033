-- ===== src/Sys/User/Utils.antt =====
-- sys/user/utils.c: memory and strings. Memory is a function from addresses to bytes, and an address
-- does not go round. A loop over a string has as many rounds as its fuel says and is `hang` if they
-- do not reach the end of the string: a string of `n` characters takes `n + 1`. `delay` has no effect,
-- and `min` and `max` are those of numbers.
pub mod Blocks
pub mod Strings
mod Tests
use create_an_os.Prelude.{
  ℕ, zero, suc, ◌+◌, ◌-◌, ◌%◌, ◌^◌, ◌==◌, if◌then◌else◌, Bool, ◌&&◌, not, Outcome, ok, hang, ◌>>=◌,
}

-- `*p = value` for a byte.
abbrev pub put_byte : ℕ → ℕ → (ℕ → ℕ) → ℕ → ℕ
put_byte p value memory q = if p == q then value else memory q

unfoldable pub memset : ℕ → ℕ → ℕ → (ℕ → ℕ) → ℕ → ℕ
memset ptr value zero memory = memory
memset ptr value (suc num) memory = memset (ptr + 1) value num (put_byte ptr (value % 2 ^ 8) memory)

-- From byte `i` on, with `left` bytes left.
unfoldable pub memcpy_from : ℕ → ℕ → ℕ → ℕ → (ℕ → ℕ) → ℕ → ℕ
memcpy_from zero i dest src memory = memory
memcpy_from (suc left) i dest src memory =
    memcpy_from left (i + 1) dest src (put_byte (dest + i) (memory (src + i)) memory)

unfoldable pub memcpy : ℕ → ℕ → ℕ → (ℕ → ℕ) → ℕ → ℕ
memcpy dest src n memory = memcpy_from n 0 dest src memory

-- Where the terminator is, from `s` on.
unfoldable pub string_end : ℕ → ℕ → (ℕ → ℕ) → Outcome ℕ
string_end zero s memory = hang
string_end (suc fuel) s memory =
    let next = string_end fuel (s + 1) memory in if memory s == 0 then ok s else next

unfoldable pub strlen : ℕ → ℕ → (ℕ → ℕ) → Outcome ℕ
strlen fuel str memory = string_end fuel str memory >>= λ s. ok (s - str)

unfoldable pub strcpy : ℕ → ℕ → ℕ → (ℕ → ℕ) → Outcome (ℕ → ℕ)
strcpy zero dest src memory = hang
strcpy (suc fuel) dest src memory =
    let copied = put_byte dest (memory src) memory in
    let next = strcpy fuel (dest + 1) (src + 1) copied in
    if memory src == 0 then ok copied else next

-- `fuel` is for each of the two loops.
unfoldable pub strcat : ℕ → ℕ → ℕ → (ℕ → ℕ) → Outcome (ℕ → ℕ)
strcat fuel dest src memory =
    string_end fuel dest memory >>= λ dest_end. strcpy fuel dest_end src memory

-- The two bytes whose difference is returned.
unfoldable pub strcmp : ℕ → ℕ → ℕ → (ℕ → ℕ) → Outcome (ℕ × ℕ)
strcmp zero str1 str2 memory = hang
strcmp (suc fuel) str1 str2 memory =
    let next = strcmp fuel (str1 + 1) (str2 + 1) memory in
    if not (memory str1 == 0) && memory str1 == memory str2
    then next
    else ok (memory str1, memory str2)
