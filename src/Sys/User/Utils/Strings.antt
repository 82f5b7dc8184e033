-- ===== src/Sys/User/Utils/Strings.antt =====
-- Strings in memory against lists of characters.
use create_an_os.Prelude.{
  ℕ, zero, suc, ◌+◌, ◌-◌, ◌<◌, ◌≤◌, ◌≡◌, ◌≢◌, ◌⊎◌, inl, inr, refl, sym, ◌∙◌, arith, List, [], ◌∷◌,
  ◌++◌, length, true, false, ◌==◌, ok, ℕ_discrete,
}
use create_an_os.Fs.Directory.{same_string}
use create_an_os.Sys.User.Utils.{put_byte, string_end, strlen, strcpy, strcat, strcmp}
use create_an_os.Sys.User.Utils.Blocks.{put_byte_self, put_byte_ne}

-- At `p` there are the characters of `s` and a terminator.
abbrev pub HasString : List ℕ → ℕ → (ℕ → ℕ) → Type 0
HasString [] p memory = memory p ≡ 0
HasString (c ∷ s) p memory = (c ≢ 0) × (memory p ≡ c) × HasString s (p + 1) memory

-- Memories that agree on the string.
HasString-kept :
    (s : List ℕ) (p : ℕ) (memory memory' : ℕ → ℕ)
    → ((q : ℕ) → p ≤ q → q < p + length s + 1 → memory' q ≡ memory q)
    → HasString s p memory
    → HasString s p memory'
HasString-kept [] p memory memory' same h = same p (omega arith) (omega arith) ∙ h
HasString-kept (c ∷ s) p memory memory' same h = (
  h.0,
  same p (omega arith) (omega arith) ∙ h.1,
  HasString-kept s (p + 1) memory memory' (λ q a b. same q (omega arith) (omega arith)) h.2,
)

==-true : (a b : ℕ) → a ≡ b → (a == b) ≡ true
==-true a b h = ground arith

==-false : (a b : ℕ) → a ≢ b → (a == b) ≡ false
==-false a b h = ground arith

not_zero : (a c : ℕ) → a ≡ c → c ≢ 0 → (a == 0) ≡ false
not_zero a c e h = ==-false a 0 (λ z. h (sym e ∙ z))

string_end_lem :
    (fuel : ℕ) (s : List ℕ) (p : ℕ) (memory : ℕ → ℕ)
    → length s < fuel
    → HasString s p memory
    → string_end fuel p memory ≡ ok (p + length s)
unfolding string_end
string_end_lem zero s p memory f h = absurd (omega arith)
string_end_lem (suc fuel) [] p memory f h = let same : p + 0 ≡ p = omega arith in rw (h, same) refl
string_end_lem (suc fuel) (c ∷ s) p memory f h =
    let next = string_end_lem fuel s (p + 1) memory (omega arith) h.2 in
    let same : p + 1 + length s ≡ p + suc (length s) = omega arith in
    let more : (memory p == 0) ≡ false = not_zero (memory p) c h.1 h.0 in rw (more, next, same) refl

-- The result of `strlen` is the number of characters in front of the terminator.
pub strlen-length :
    (fuel : ℕ) (s : List ℕ) (p : ℕ) (memory : ℕ → ℕ)
    → length s < fuel
    → HasString s p memory
    → strlen fuel p memory ≡ ok (length s)
unfolding strlen
strlen-length fuel s p memory f h =
    let same : p + length s - p ≡ length s = omega arith in
    rw (string_end_lem fuel s p memory f h, same) refl

-- The target is in front of the source, or behind its terminator.
abbrev pub Apart : ℕ → ℕ → ℕ → Type 0
Apart dest src n = (dest ≤ src) ⊎ (src + n < dest)

Apart-outside :
    (dest src n q : ℕ) → Apart dest src (suc n) → src + 1 ≤ q → q < src + 1 + n + 1 → dest ≢ q
Apart-outside dest src n q (inl h) a b e = omega (arith, e)
Apart-outside dest src n q (inr h) a b e = omega (arith, e)

Apart-next : (dest src n : ℕ) → Apart dest src (suc n) → Apart (dest + 1) (src + 1) n
Apart-next dest src n (inl h) = inl (omega arith)
Apart-next dest src n (inr h) = inr (omega arith)

-- `memory'` is `memory` but for the `n` bytes from `p` on.
abbrev pub SameOutside : ℕ → ℕ → (ℕ → ℕ) → (ℕ → ℕ) → Type 0
SameOutside p n memory memory' = (q : ℕ) → (q < p) ⊎ (p + n ≤ q) → memory' q ≡ memory q

SameOutside-put_byte :
    (p n value : ℕ) (memory memory' : ℕ → ℕ)
    → SameOutside (p + 1) n (put_byte p value memory) memory'
    → SameOutside p (suc n) memory memory'
SameOutside-put_byte p n value memory memory' same q (inl h) =
    same q (inl (omega arith)) ∙ put_byte_ne p q value memory (λ e. omega arith)
SameOutside-put_byte p n value memory memory' same q (inr h) =
    same q (inr (omega arith)) ∙ put_byte_ne p q value memory (λ e. omega arith)

-- `strcpy` puts the source's string to a target in front of the source or behind its terminator, and
-- changes no byte but those of the new string and its terminator. One round for each of these is
-- enough.
pub strcpy-HasString :
    (fuel : ℕ) (s : List ℕ) (dest src : ℕ) (memory : ℕ → ℕ)
    → length s < fuel
    → HasString s src memory
    → Apart dest src (length s)
    → (memory' : ℕ → ℕ) × (strcpy fuel dest src memory ≡ ok memory')
      × HasString s dest memory'
      × SameOutside dest (suc (length s)) memory memory'
unfolding strcpy
strcpy-HasString zero s dest src memory f h a = absurd (omega arith)
strcpy-HasString (suc fuel) [] dest src memory f h a = (
  put_byte dest (memory src) memory,
  rw h refl,
  put_byte_self dest (memory src) memory ∙ h,
  SameOutside-put_byte dest 0 (memory src) memory (put_byte dest (memory src) memory) (λ q o. refl),
)
strcpy-HasString (suc fuel) (c ∷ s) dest src memory f h a =
    let copied = put_byte dest (memory src) memory in
    let kept : HasString s (src + 1) copied =
      HasString-kept s (src + 1) memory copied
        (λ q low high.
          put_byte_ne dest q (memory src) memory (Apart-outside dest src (length s) q a low high))
        h.2 in
    let (memory', e, there, same) =
      strcpy-HasString fuel s (dest + 1) (src + 1) copied (omega arith) kept
        (Apart-next dest src (length s) a) in
    let more = not_zero (memory src) c h.1 h.0 in
    (
      memory',
      rw (more, e) refl,
      (h.0, same dest (inl (omega arith)) ∙ put_byte_self dest (memory src) memory ∙ h.1, there),
      SameOutside-put_byte dest (suc (length s)) (memory src) memory memory' same,
    )

HasString-append :
    (s t : List ℕ) (p : ℕ) (memory memory' : ℕ → ℕ)
    → ((q : ℕ) → q < p + length s → memory' q ≡ memory q)
    → HasString s p memory
    → HasString t (p + length s) memory'
    → HasString (s ++ t) p memory'
HasString-append [] t p memory memory' same h ht =
    let plain : p + 0 ≡ p = omega arith in rw (sym plain) ht
HasString-append (c ∷ s) t p memory memory' same h ht =
    let next : p + suc (length s) ≡ p + 1 + length s = omega arith in
    (
      h.0,
      same p (omega arith) ∙ h.1,
      HasString-append s t (p + 1) memory memory' (λ q low. same q (omega arith)) h.2
          (rw (sym next) ht),
    )

-- `strcat` puts the source's string behind the target's. The source is behind the end of the
-- target's string, or its terminator is in front of it; no byte changes but those of the source's
-- string and its terminator at their new place.
pub strcat-HasString :
    (fuel : ℕ) (s t : List ℕ) (dest src : ℕ) (memory : ℕ → ℕ)
    → length s < fuel
    → length t < fuel
    → HasString s dest memory
    → HasString t src memory
    → Apart (dest + length s) src (length t)
    → (memory' : ℕ → ℕ) × (strcat fuel dest src memory ≡ ok memory')
      × HasString (s ++ t) dest memory'
      × SameOutside (dest + length s) (suc (length t)) memory memory'
unfolding strcat
strcat-HasString fuel s t dest src memory fs ft hs ht a =
    let (memory', e, there, same) = strcpy-HasString fuel t (dest + length s) src memory ft ht a in
    (
      memory',
      rw (string_end_lem fuel s dest memory fs hs) e,
      HasString-append s t dest memory memory' (λ q low. same q (inl low)) hs there,
      same,
    )

-- `strcmp` returns 0 for two strings just where they are the same as lists of characters.
pub strcmp-same_string :
    (fuel : ℕ) (s t : List ℕ) (str1 str2 : ℕ) (memory : ℕ → ℕ)
    → length s < fuel
    → HasString s str1 memory
    → HasString t str2 memory
    → (a : ℕ) × (b : ℕ) × (strcmp fuel str1 str2 memory ≡ ok (a, b)) × ((a == b) ≡ same_string s t)
unfolding strcmp same_string
strcmp-same_string zero s t str1 str2 memory f hs ht = absurd (omega arith)
strcmp-same_string (suc fuel) [] [] str1 str2 memory f hs ht = (0, 0, rw (hs, ht) refl, refl)
strcmp-same_string (suc fuel) [] (c ∷ t) str1 str2 memory f hs ht =
    (0, c, rw (hs, ht.1) refl, ==-false 0 c (λ e. ht.0 (sym e)))
strcmp-same_string (suc fuel) (b ∷ s) [] str1 str2 memory f hs ht =
    let more = ==-false b 0 hs.0 in (b, 0, rw (hs.1, ht, more) refl, more)
strcmp-same_string (suc fuel) (b ∷ s) (c ∷ t) str1 str2 memory f hs ht =
    let more = not_zero (memory str1) b hs.1 hs.0 in
    elim (ℕ_discrete b c) [
      | yes e ↦
          let (x, y, ran, same) =
            strcmp-same_string fuel s t (str1 + 1) (str2 + 1) memory (omega arith) hs.2 ht.2 in
          let equal = ==-true (memory str1) (memory str2) (hs.1 ∙ e ∙ sym ht.1) in
          let heads = ==-true b c e in (x, y, rw (more, equal, ran) refl, rw heads same)
      | no ne ↦
          let differ = ==-false (memory str1) (memory str2) (λ z. ne (sym hs.1 ∙ z ∙ ht.1)) in
          let heads = ==-false b c ne in
          (memory str1, memory str2, rw (more, differ) refl, rw (differ, heads) refl)
    ]
