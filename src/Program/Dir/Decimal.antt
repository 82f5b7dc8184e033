-- ===== src/Program/Dir/Decimal.antt =====
-- The number that a reader finds in the text.
use create_an_os.Prelude.{
  ℕ, zero, suc, ◌+◌, ◌-◌, ◌*◌, ◌/◌, ◌%◌, ◌^◌, ◌≤◌, ◌<◌, ◌≡◌, ◌≢◌, ◌⊎◌, inl, inr, refl, sym, ap, ◌∙◌,
  arith, List, [], ◌∷◌, ◌++◌, true, false, length, set, replicate, ltb, ◌==◌, ok, write-ok,
  ℕ_discrete,
}
use create_an_os.Program.Dir.{put_number, unit_text, size_text}

-- Characters from 0 to 9.
abbrev pub AreDigits : List ℕ → Type 0
AreDigits [] = Unit {0}
AreDigits (c ∷ text) = (b'0' ≤ c) × (c ≤ b'9') × AreDigits text

-- The value of decimal digits, the first of them being the highest; `n` is what stands in front.
abbrev pub value : ℕ → List ℕ → ℕ
value n [] = n
value n (c ∷ text) = value (n * 10 + (c - b'0')) text

-- The text does not start with a 0.
abbrev pub NoLeadingZero : List ℕ → Type 0
NoLeadingZero [] = Unit {0}
NoLeadingZero (c ∷ text) = c ≢ b'0'

value-append :
    (text : List ℕ) (n d : ℕ) → value n (text ++ (d ∷ [])) ≡ value n text * 10 + (d - b'0')
value-append [] n d = refl
value-append (c ∷ text) n d = value-append text _ d

AreDigits-append :
    (text : List ℕ) (d : ℕ) → d < 10 → AreDigits text → AreDigits (text ++ ((b'0' + d) ∷ []))
AreDigits-append [] d h v = (omega arith, omega arith, tt)
AreDigits-append (c ∷ text) d h v = (v.0, v.1, AreDigits-append text d h v.2)

NoLeadingZero-append :
    (text : List ℕ) (d : ℕ)
    → 0 < value 0 text * 10 + d
    → NoLeadingZero text
    → NoLeadingZero (text ++ ((b'0' + d) ∷ []))
NoLeadingZero-append [] d h v = λ e. omega (arith, e, h)
NoLeadingZero-append (c ∷ text) d h v = v

length-append_one : (text : List ℕ) (d : ℕ) → length (text ++ (d ∷ [])) ≡ length text + 1
length-append_one [] d = refl
length-append_one (c ∷ text) d = omega (arith, length-append_one text d)

-- A number of `p` digits at most.
abbrev pub Fits : ℕ → ℕ → Type 0
Fits zero n = n ≡ 0
Fits (suc p) n = Fits p (n / 10)

set-replicate :
    (p v : ℕ) (rest : List ℕ)
    → set (replicate (suc p) b' ' ++ rest) p v ≡ replicate p b' ' ++ (v ∷ rest)
set-replicate zero v rest = refl
set-replicate (suc p) v rest = ap (λ r. b' ' ∷ r) (set-replicate p v rest)

length-field : (p : ℕ) (rest : List ℕ) → p ≤ length (replicate p b' ' ++ rest)
length-field zero rest = omega arith
length-field (suc p) rest = omega (arith, length-field p rest)

append-digit :
    (text : List ℕ) (d : ℕ) (rest : List ℕ) → text ++ (d ∷ rest) ≡ (text ++ (d ∷ [])) ++ rest
append-digit [] d rest = refl
append-digit (c ∷ text) d rest = ap (λ r. c ∷ r) (append-digit text d rest)

-- The digits of a number, with blanks in front of them up to `p` places.
pub record IsDecimal (p n : ℕ) (digits : List ℕ) : Type 0 where
  pub are_digits : AreDigits digits
  pub number : value 0 digits ≡ n
  pub canonical : NoLeadingZero digits
  pub fits : length digits ≤ p

put_number_lem :
    (p n : ℕ) (rest : List ℕ)
    → Fits p n
    → (digits : List ℕ) × (put_number p n (replicate p b' ' ++ rest)
        ≡ ok (replicate (p - length digits) b' ' ++ (digits ++ rest)))
      × IsDecimal p n digits
unfolding put_number
put_number_lem zero n rest h =
    ([], rw h refl, record { are_digits = tt; number = sym h; canonical = tt; fits = omega arith })
put_number_lem (suc p) n rest h = elim (ℕ_discrete n 0) [
  | yes z ↦
      let whole : suc p - 0 ≡ suc p = omega arith in
      (
        [],
        rw (z, whole) refl,
        record { are_digits = tt; number = sym z; canonical = tt; fits = omega arith },
      )
  | no nz ↦
      let digit : ℕ = b'0' + n % 10 in
      let (text, e, v) = put_number_lem p (n / 10) (digit ∷ rest) h in
      let test : (n == 0) ≡ false = ground (arith, nz) in
      let long = length-field (suc p) rest in
      let written = write-ok (replicate (suc p) b' ' ++ rest) p digit long in
      let size = length-append_one text digit in
      let blanks : suc p - length (text ++ (digit ∷ [])) ≡ p - length text =
        omega (arith, size, v.fits) in
      let parts : n ≡ value 0 text * 10 + n % 10 = omega (arith, v.number) in
      (
        text ++ (digit ∷ []),
        rw (test, written, set-replicate p digit rest, blanks)
            (e
              ∙ ap (λ r. ok (replicate (p - length text) b' ' ++ r))
                  (append-digit text digit rest)),
        record {
          are_digits = AreDigits-append text (n % 10) (omega arith) v.are_digits;
          number = value-append text 0 digit ∙ omega (arith, parts);
          canonical = NoLeadingZero-append text (n % 10) (omega (arith, parts, nz)) v.canonical;
          fits = omega (arith, size, v.fits);
        },
      )
]

Fits-int : (n : ℕ) → n < 2 ^ 31 → Fits 18 n
Fits-int n h = omega arith

put_number-zero : (str : List ℕ) → put_number 18 0 str ≡ ok str
unfolding put_number
put_number-zero str = refl

-- Nothing but the blank field is printed of 0 and of a negative number.
pub size_text-blank :
    (size : ℕ) → (size ≡ 0) ⊎ (2 ^ 31 ≤ size) → size_text size ≡ ok (replicate 18 b' ' ++ unit_text)
unfolding size_text
size_text-blank size (inl z) = rw z (put_number-zero _)
size_text-blank size (inr h) =
    let test : ltb size (2 ^ 31) ≡ false = ground arith in rw test (put_number-zero _)

has_digits : (digits : List ℕ) (n : ℕ) → value 0 digits ≡ n → 0 < n → 0 < length digits
has_digits [] n e h = absurd (omega (arith, e, h))
has_digits (c ∷ digits) n e h = omega arith

-- Of the size of a file, as an `int` above 0, `dir` prints blanks and behind them, up to the unit, the
-- decimal digits of just this number, at least one of them and the first one not 0; blanks and
-- digits are 18 characters.
pub size_text-value :
    (size : ℕ)
    → 0 < size
    → size < 2 ^ 31
    → (digits : List ℕ) × (size_text size
        ≡ ok (replicate (18 - length digits) b' ' ++ (digits ++ unit_text)))
      × (0 < length digits)
      × IsDecimal 18 size digits
unfolding size_text
size_text-value size some h =
    let test : ltb size (2 ^ 31) ≡ true = ground arith in
    let (digits, e, v) = put_number_lem 18 size unit_text (Fits-int size h) in
    (digits, rw test e, has_digits digits size v.number some, v)
