-- ===== src/Sys/User/Utils/Tests.antt =====
-- Two strings in memory, at 10 and at 20.
use create_an_os.Prelude.{ℕ, ◌≡◌, refl, arith, List, [], ◌∷◌, ◌==◌, if◌then◌else◌, ok, inl}
use create_an_os.Fs.Directory.{same_string}
use create_an_os.Sys.User.Utils.{strcat, strcmp}
use create_an_os.Sys.User.Utils.Strings.{
  HasString, SameOutside, strcat-HasString, strcmp-same_string,
}

abbrev words : ℕ → ℕ
words q =
    if q == 10
    then b'l'
    else if q == 11
    then b's'
    else if q == 20
    then b'l'
    else if q == 21
    then b'n'
    else 0

abbrev first_word : List ℕ
first_word = b'l' ∷ b's' ∷ []

abbrev second_word : List ℕ
second_word = b'l' ∷ b'n' ∷ []

has_first : HasString first_word 10 words
has_first = ((λ e. omega arith), refl, ((λ e. omega arith), refl, refl))

has_second : HasString second_word 20 words
has_second = ((λ e. omega arith), refl, ((λ e. omega arith), refl, refl))

strcat-HasString_example :
    (memory' : ℕ → ℕ) × (strcat 3 10 20 words ≡ ok memory')
    × HasString (b'l' ∷ b's' ∷ b'l' ∷ b'n' ∷ []) 10 memory'
    × SameOutside 12 3 words memory'
strcat-HasString_example =
    strcat-HasString 3 first_word second_word 10 20 words (omega arith) (omega arith) has_first
      has_second (inl (omega arith))

strcmp-same_string_example :
    (a : ℕ) × (b : ℕ) × (strcmp 3 10 20 words ≡ ok (a, b))
    × ((a == b) ≡ same_string first_word second_word)
strcmp-same_string_example =
    strcmp-same_string 3 first_word second_word 10 20 words (omega arith) has_first has_second
