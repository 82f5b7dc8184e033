-- ===== src/Io/Driver/Scan.antt =====
-- Every scan code leads inside of the key table, and to a key that the switch knows or to a byte.
use create_an_os.Prelude.{
  ℕ, ◌+◌, ◌-◌, ◌*◌, ◌/◌, ◌<◌, ◌≡◌, refl, bit_and, Bool, true, false, ◌||◌, arith, ltb, ◌==◌,
  if◌then◌else◌, length, get_or, ok, read-ok, holds_below, at-holds_below,
}
use create_an_os.Prelude.Bits.{bit_and_mask, bit_and_field}
use create_an_os.Io.Keys
use create_an_os.Io.Keymap.{keymap}
use create_an_os.Io.Driver.{Key, look_up, one_of, ignored_keys, function_keys, flag_keys, cased}

-- A case of the switch that is not `default`.
unfoldable pub is_special : ℕ → Bool
unfolding one_of
is_special c =
    one_of ignored_keys c
    || one_of function_keys c
    || one_of flag_keys c
    || c == Keys.backspace
    || c == Keys.enter

unfoldable pub is_known : ℕ → Bool
is_known c = ltb c 0x100 || is_special c

length-keymap : length keymap ≡ 0x180
unfolding keymap
length-keymap = refl

known_table : holds_below 0x180 (λ i. is_known (get_or keymap i 0)) ≡ true
unfolding holds_below is_known is_special one_of keymap
known_table = refl

-- For each byte and each of the three columns the table has an entry, which is a byte or a key that
-- has a case of its own in the switch; `mark` is 1 exactly when the top bit of the byte is clear.
pub look_up-is_known :
    (key column : ℕ)
    → key < 0x100
    → column < 3
    → (k : Key) × (look_up key column ≡ ok k) × (is_known k.code ≡ true) × (k.mark ≡ 1 - key / 128)
unfolding look_up
look_up-is_known key column hk hc =
    let i = bit_and key 0x7f * 3 + column in
    let inside : i < 0x180 = omega (arith, bit_and_mask 7 key) in
    (
      record { code = get_or keymap i 0; mark = if bit_and key 0x80 == 0 then 1 else 0 },
      rw (read-ok keymap i 0 (rw length-keymap inside)),
      at-holds_below 0x180 (λ i. is_known (get_or keymap i 0)) i known_table inside,
      ground (arith, bit_and_field 7 1 key),
    )

-- The table is read inside for every number.
pub look_up-ok : (key column : ℕ) → column < 3 → (k : Key) × (look_up key column ≡ ok k)
unfolding look_up
look_up-ok key column hc =
    let i = bit_and key 0x7f * 3 + column in
    let inside : i < 0x180 = omega (arith, bit_and_mask 7 key) in
    (
      record { code = get_or keymap i 0; mark = if bit_and key 0x80 == 0 then 1 else 0 },
      rw (read-ok keymap i 0 (rw length-keymap inside)),
    )

-- A key without a case of its own is a byte, with the letter case swapped or not: `put_key` cuts
-- nothing off.
pub cased-lt : (flag c : ℕ) → is_known c ≡ true → is_special c ≡ false → cased flag c < 0x100
unfolding cased is_known
cased-lt flag c known plain = ground (arith, known, plain)
