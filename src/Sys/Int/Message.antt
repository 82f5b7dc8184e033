-- ===== src/Sys/Int/Message.antt =====
-- The message for an interrupt that nobody handles, and reading it back.
use create_an_os.Prelude.{
  ℕ, zero, suc, ◌+◌, ◌-◌, ◌*◌, ◌/◌, ◌%◌, ◌^◌, ◌≤◌, ◌<◌, ◌≡◌, refl, ap, ◌∙◌, bit_and, arith, List,
  [], ◌∷◌, ◌++◌, ltb, if◌then◌else◌, ok, write,
}
use create_an_os.Prelude.Bits.{bit_and_mask}
use create_an_os.Sys.Frame.{Frame}
use create_an_os.Video.Text.{IsText}
use create_an_os.Fs.Directory.{c_string}
use create_an_os.Sys.Int.{put_digits, unregistered_buffer}

abbrev pub hex_char : ℕ → ℕ
hex_char c = if ltb c 10 then b'0' + c else b'a' - 10 + c

-- The lowest `k` hexadecimal digits, the highest first.
abbrev pub hex_digits : ℕ → ℕ → List ℕ
hex_digits zero e = []
hex_digits (suc k) e = hex_char (bit_and (e / 2 ^ (k * 4)) 0xf) ∷ hex_digits k e

abbrev pub number_text : ℕ → List ℕ
number_text num = ((b'0' + num / 10) % 2 ^ 8) ∷ (b'0' + num % 10) ∷ []

abbrev lead : List ℕ
lead =
    b'U' ∷ b'n' ∷ b'r' ∷ b'e' ∷ b'g' ∷ b'i' ∷ b's' ∷ b't' ∷ b'e' ∷ b'r' ∷ b'd' ∷ b' ' ∷ b'i' ∷ b'n'
    ∷ b't' ∷ b'e' ∷ b'r' ∷ b'r' ∷ b'u' ∷ b'p' ∷ b't' ∷ b' ' ∷ []

abbrev middle : List ℕ
middle = b' ' ∷ b'a' ∷ b't' ∷ b' ' ∷ b'0' ∷ b'x' ∷ []

-- "Unregisterd interrupt NN at 0xXXXXXXXX"
abbrev pub message : ℕ → ℕ → List ℕ
message num eip = lead ++ (number_text num ++ (middle ++ hex_digits 8 eip))

pub buffer_lem :
    (param : Frame) → unregistered_buffer param ≡ ok (message param.num param.eip ++ 0 ∷ [])
unfolding unregistered_buffer put_digits write
buffer_lem param = refl

-- Characters from the blank up to the last that is printed.
abbrev IsPlain : List ℕ → Type 0
IsPlain [] = Unit {0}
IsPlain (c ∷ s) = ((32 ≤ c) × (c < 127)) × IsPlain s

IsPlain-append : (s t : List ℕ) → IsPlain s → IsPlain t → IsPlain (s ++ t)
IsPlain-append [] t p q = q
IsPlain-append (c ∷ s) t p q = (p.0, IsPlain-append s t p.1 q)

hex_char-lt : (c : ℕ) → c < 16 → (32 ≤ hex_char c) × (hex_char c < 127)
hex_char-lt c h = ground arith

hex_digits-IsPlain : (k e : ℕ) → IsPlain (hex_digits k e)
hex_digits-IsPlain zero e = tt
hex_digits-IsPlain (suc k) e = (
  hex_char-lt (bit_and (e / 2 ^ (k * 4)) 0xf) (rw (bit_and_mask 4 (e / 2 ^ (k * 4))) (omega arith)),
  hex_digits-IsPlain k e,
)

message-IsPlain : (num eip : ℕ) → num < 100 → IsPlain (message num eip)
message-IsPlain num eip h =
    IsPlain-append lead (number_text num ++ (middle ++ hex_digits 8 eip)) (omega arith) (
      IsPlain-append (number_text num) (middle ++ hex_digits 8 eip) (omega arith)
        (IsPlain-append middle (hex_digits 8 eip) (omega arith) (hex_digits-IsPlain 8 eip)))

IsPlain-IsText : (s : List ℕ) → IsPlain s → IsText s
IsPlain-IsText [] p = tt
IsPlain-IsText (c ∷ s) p = (
  record {
    byte = omega (arith, p.0);
    no_newline = λ e. omega (arith, p.0);
    no_tab = λ e. omega (arith, p.0);
    no_backspace = λ e. omega (arith, p.0);
  },
  IsPlain-IsText s p.1,
)

c_string-IsPlain : (s : List ℕ) → IsPlain s → c_string (s ++ 0 ∷ []) ≡ ok s
unfolding c_string
c_string-IsPlain [] p = refl
c_string-IsPlain (c ∷ s) p = rw (c_string-IsPlain s p.1) (ground (arith, p.0))

pub c_string-message :
    (num eip : ℕ) → num < 100 → c_string (message num eip ++ 0 ∷ []) ≡ ok (message num eip)
c_string-message num eip h = c_string-IsPlain (message num eip) (message-IsPlain num eip h)

pub message-IsText : (num eip : ℕ) → num < 100 → IsText (message num eip)
message-IsText num eip h = IsPlain-IsText (message num eip) (message-IsPlain num eip h)

-- A reader of hexadecimal digits.
abbrev hex_digit_value : ℕ → ℕ
hex_digit_value c = if ltb c (b'9' + 1) then c - b'0' else c - b'a' + 10

abbrev pub hex_value : ℕ → List ℕ → ℕ
hex_value acc [] = acc
hex_value acc (c ∷ s) = hex_value (acc * 16 + hex_digit_value c) s

hex_digit_value-hex_char : (c : ℕ) → c < 16 → hex_digit_value (hex_char c) ≡ c
hex_digit_value-hex_char c h = ground arith

abbrev of_char : ℕ → ℕ → ℕ
of_char acc c = acc * 16 + hex_digit_value c

of_char-digit :
    (acc k e : ℕ)
    → of_char acc (hex_char (bit_and (e / 2 ^ (k * 4)) 0xf)) ≡ acc * 16 + e / 2 ^ (k * 4) % 16
of_char-digit acc k e =
    let value = hex_digit_value-hex_char (e / 2 ^ (k * 4) % 2 ^ 4) (omega arith) in
    rw (bit_and_mask 4 (e / 2 ^ (k * 4)), value) refl

-- The number that the lowest `k` digits stand for, behind `acc`.
abbrev joined : ℕ → ℕ → ℕ → ℕ
joined zero acc e = acc
joined (suc k) acc e = joined k (acc * 16 + e / 2 ^ (k * 4) % 16) e

hex_value-joined : (k acc e : ℕ) → hex_value acc (hex_digits k e) ≡ joined k acc e
hex_value-joined zero acc e = refl
hex_value-joined (suc k) acc e =
    ap (λ a. hex_value a (hex_digits k e)) (of_char-digit acc k e)
    ∙ hex_value-joined k (acc * 16 + e / 2 ^ (k * 4) % 16) e

joined_lem : (e : ℕ) → e < 2 ^ 32 → joined 8 0 e ≡ e
joined_lem e h = omega arith

pub message-number :
    (num : ℕ) → num < 100 → ((b'0' + num / 10) % 2 ^ 8 - b'0') * 10 + (b'0' + num % 10 - b'0') ≡ num
message-number num h = omega arith

pub hex_value-hex_digits : (eip : ℕ) → eip < 2 ^ 32 → hex_value 0 (hex_digits 8 eip) ≡ eip
hex_value-hex_digits eip h = hex_value-joined 8 0 eip ∙ joined_lem eip h
