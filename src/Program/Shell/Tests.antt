-- ===== src/Program/Shell/Tests.antt =====
-- A line of two words, and one of seventeen in an array of sixteen.
use create_an_os.Prelude.{
  ℕ, zero, suc, ◌≡◌, refl, arith, List, [], ◌∷◌, replicate, ok, fault, write,
}
use create_an_os.Program.Shell.{split_line, split_words}
use create_an_os.Program.Shell.Words.{split_words-fault}

abbrev echo_hi : List ℕ
echo_hi = b'e' ∷ b'c' ∷ b'h' ∷ b'o' ∷ b' ' ∷ b'h' ∷ b'i' ∷ []

split_words_two :
    split_words echo_hi (replicate 16 0)
    ≡ ok (record {
      buf = b'e' ∷ b'c' ∷ b'h' ∷ b'o' ∷ 0 ∷ b'h' ∷ b'i' ∷ [];
      argc = 2;
      argv = 0 ∷ 5 ∷ replicate 14 0;
    })
unfolding split_words split_line write
split_words_two = refl

abbrev letters : ℕ → List ℕ
letters zero = []
letters (suc n) = b'a' ∷ b' ' ∷ letters n

split_words-fault_example : split_words (letters 17) (replicate 16 0) ≡ fault
split_words-fault_example = split_words-fault (letters 17) (replicate 16 0) (omega arith)
