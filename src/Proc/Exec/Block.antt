-- ===== src/Proc/Exec/Block.antt =====
-- The whole argument block: what `sys_exec` puts down is what the new program finds.
use create_an_os.Prelude.{
  ℕ, ◌+◌, ◌-◌, ◌*◌, ◌^◌, ◌≤◌, ◌<◌, List, [], ◌∷◌, length, drop, Outcome, ok, ◌>>=◌,
}
use create_an_os.Fs.File.{copy_from}
use create_an_os.Fs.Directory.{c_string}
use create_an_os.Proc.Exec.{stack_base}
use create_an_os.Proc.Exec.Arguments.{AreStrings, Fit, bottom}

-- What the new program reads: `n` pointers from `p` on, and the string that each leads to.
abbrev pub words_of : List ℕ → List ℕ
words_of (a ∷ b ∷ c ∷ d ∷ bytes) = (a + b * 2 ^ 8 + c * 2 ^ 16 + d * 2 ^ 24) ∷ words_of bytes
words_of _ = []

abbrev pub read_strings : List ℕ → List ℕ → Outcome (List (List ℕ))
read_strings stack [] = ok []
read_strings stack (a ∷ pointers) = c_string (drop (a - stack_base) stack) >>= λ s.
    read_strings stack pointers >>= λ rest. ok (s ∷ rest)

abbrev pub read_argv : ℕ → ℕ → List ℕ → Outcome (List (List ℕ))
read_argv n p stack = copy_from (n * 4) p stack >>= λ bytes. read_strings stack (words_of bytes)

abbrev AreWords : List ℕ → Type 0
AreWords [] = Unit {0}
AreWords (w ∷ ws) = (w < 2 ^ 32) × AreWords ws

-- The arguments are strings, at most 16, and with their pointers they fit the array of 256 bytes.
pub record CanPass (args : List (List ℕ)) : Type 0 where
  pub strings : AreStrings args
  pub fit : Fit 0xff args
  pub few : length args ≤ 16
  pub room : length args * 4 + 3 ≤ bottom 0xff args
