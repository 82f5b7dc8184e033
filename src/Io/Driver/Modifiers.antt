-- ===== src/Io/Driver/Modifiers.antt =====
-- The modifier and lock keys: what the bits of `kbflag` remember of the keys that went down and up.
use create_an_os.Prelude.{
  ℕ, zero, suc, ◌-◌, ◌/◌, ◌%◌, ◌^◌, ◌<◌, ◌≡◌, refl, Bool, true, false, not, ◌&&◌, List, [], ◌∷◌,
  arith, ltb, ◌==◌, ==_iff, if◌then◌else◌, Bool-cases, inl, inr, length, get_or, holds_below,
  at-holds_below,
}
use create_an_os.Io.Driver.{
  Key, one_of, ignored_keys, function_keys, flag_keys, hold_flag, toggle_flag, flag_after,
}

-- Bit `j` of the flags.
abbrev pub flag_bit : ℕ → ℕ → ℕ
flag_bit flag j = flag / 2 ^ j % 2

-- Bit `j` after one key, where `b` is what it was: a held key shows whether it is down, a lock
-- changes whenever it goes down, and each minds its own key only.
unfoldable pub bit_after : ℕ → Key → ℕ → ℕ
bit_after j k b =
    if k.code == get_or flag_keys j 0
    then (if ltb j 6 then (if k.mark == 0 then 0 else 1) else if k.mark == 0 then b else 1 - b)
    else b

agrees : ℕ → ℕ → ℕ → ℕ → Bool
unfolding bit_after
agrees m i j flag =
    let k : Key = record { code = get_or flag_keys i 0; mark = m } in
    let after = flag_after k flag in
    ltb after 512 && flag_bit after j == bit_after j k (flag_bit flag j)

agrees_table :
    holds_below 2 (λ m. holds_below 9 (λ i. holds_below 9 (λ j. holds_below 512 (agrees m i j))))
    ≡ true
unfolding holds_below agrees bit_after flag_after hold_flag toggle_flag
agrees_table = refl

-- A key of a list of keys has a place there.
pub one_of-place :
    (keys : List ℕ) (c : ℕ)
    → one_of keys c ≡ true
    → (i : ℕ) × (i < length keys) × (c ≡ get_or keys i 0)
unfolding one_of
one_of-place [] c h = absurd (cc)
one_of-place (x ∷ keys) c h = elim (Bool-cases (c == x)) [
  | inl e ↦ (0, omega arith, (==_iff c x).0 e)
  | inr ne ↦ let (i, hi, e) = one_of-place keys c (rw ne at h) in (suc i, omega arith, e)
]

pub one_of-ne :
    (keys : List ℕ) (c i : ℕ)
    → one_of keys c ≡ false
    → i < length keys
    → (c == get_or keys i 0) ≡ false
unfolding one_of
one_of-ne [] c i h lt = absurd (omega arith)
one_of-ne (x ∷ keys) c zero h lt = ground (arith, h)
one_of-ne (x ∷ keys) c (suc i) h lt = one_of-ne keys c i (ground (arith, h)) (omega arith)

-- Only 0 counts as a key that comes up.
flag_after-mark :
    (c m flag : ℕ)
    → flag_after (record { code = c; mark = suc m }) flag
      ≡ flag_after (record { code = c; mark = 1 }) flag
unfolding flag_after hold_flag toggle_flag
flag_after-mark c m flag = let down : (suc m == 0) ≡ false = ground arith in rw down refl

bit_after-mark :
    (j c m b : ℕ)
    → bit_after j (record { code = c; mark = suc m }) b
      ≡ bit_after j (record { code = c; mark = 1 }) b
unfolding bit_after
bit_after-mark j c m b = let down : (suc m == 0) ≡ false = ground arith in rw down refl

abbrev Recorded : ℕ → Key → ℕ → Type 0
Recorded j k flag =
    (flag_after k flag < 512) × (flag_bit (flag_after k flag) j ≡ bit_after j k (flag_bit flag j))

Recorded-table :
    (m i j flag : ℕ)
    → m < 2
    → i < 9
    → j < 9
    → flag < 512
    → Recorded j (record { code = get_or flag_keys i 0; mark = m }) flag
unfolding agrees
Recorded-table m i j flag hm hi hj hf =
    let t₁ =
      at-holds_below 2
        (λ m. holds_below 9 (λ i. holds_below 9 (λ j. holds_below 512 (agrees m i j)))) m
        agrees_table hm in
    let t₂ = at-holds_below 9 (λ i. holds_below 9 (λ j. holds_below 512 (agrees m i j))) i t₁ hi in
    let t₃ = at-holds_below 9 (λ j. holds_below 512 (agrees m i j)) j t₂ hj in
    let t = at-holds_below 512 (agrees m i j) flag t₃ hf in ground (arith, t)

Recorded-mark :
    (m c j flag : ℕ)
    → ((m' : ℕ) → m' < 2 → Recorded j (record { code = c; mark = m' }) flag)
    → Recorded j (record { code = c; mark = m }) flag
Recorded-mark zero c j flag t = t 0 (omega arith)
Recorded-mark (suc m) c j flag t =
    rw (flag_after-mark c m flag, bit_after-mark j c m (flag_bit flag j)) (t 1 (omega arith))

-- A key that has a case for `kbflag` changes the bit of that key and no other.
pub flag_after-bit_after :
    (k : Key) (flag j : ℕ) → one_of flag_keys k.code ≡ true → flag < 512 → j < 9 → Recorded j k flag
flag_after-bit_after k flag j h hf hj =
    let (i, hi, e) = one_of-place flag_keys k.code h in
    Recorded-mark k.mark k.code j flag (λ m hm. rw e (Recorded-table m i j flag hm hi hj hf))

-- Any other key leaves the bits as they are.
pub bit_after-other :
    (k : Key) (j b : ℕ) → one_of flag_keys k.code ≡ false → j < 9 → bit_after j k b ≡ b
unfolding bit_after
bit_after-other k j b h hj = rw (one_of-ne flag_keys k.code j h hj)

-- The keys with a case for `kbflag` are none of the keys that only break, and no function keys.
flag_only : ℕ → Bool
flag_only i =
    not (one_of ignored_keys (get_or flag_keys i 0))
    && not (one_of function_keys (get_or flag_keys i 0))

flag_only_table : holds_below 9 flag_only ≡ true
unfolding holds_below flag_only one_of
flag_only_table = refl

pub flag_keys-apart :
    (c : ℕ)
    → one_of flag_keys c ≡ true
    → (one_of ignored_keys c ≡ false) × (one_of function_keys c ≡ false)
unfolding flag_only
flag_keys-apart c h =
    let (i, hi, e) = one_of-place flag_keys c h in
    let t = at-holds_below 9 flag_only i flag_only_table hi in rw e (ground (arith, t))
