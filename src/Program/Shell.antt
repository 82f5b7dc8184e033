-- ===== src/Program/Shell.antt =====
-- program/shell/shell.c: a line is cut into words in place. A pointer into `buf` is its index there,
-- and the array of pointers has 16 entries.
pub mod Words
mod Tests
use create_an_os.Prelude.{
  ℕ, zero, suc, ◌+◌, List, [], ◌∷◌, Bool, true, false, ◌&&◌, not, ◌==◌, if◌then◌else◌, Outcome, ok,
  ◌>>=◌, write,
}

-- `buf`, `argc` and `argv` after the loop.
pub record Line : Type 0 where
  pub buf : List ℕ
  pub argc : ℕ
  pub argv : List ℕ

-- What the rest of the loop leaves, behind a character that it passed.
abbrev pub behind : ℕ → Outcome Line → Outcome Line
behind c rest = rest >>= λ l. ok (record l { buf = c ∷ l.buf })

-- The loop from index `i` on, for the characters that are left; `f` says that it is in a word.
unfoldable pub split_line : ℕ → Bool → List ℕ → ℕ → List ℕ → Outcome Line
split_line i f [] argc argv = ok (record { buf = []; argc = argc; argv = argv })
split_line i f (c ∷ rest) argc argv =
    let begun : Outcome Line =
      write argv argc i >>= λ argv'. behind c (split_line (i + 1) true rest (argc + 1) argv') in
    let ended = behind 0 (split_line (i + 1) false rest argc argv) in
    let passed = behind c (split_line (i + 1) f rest argc argv) in
    if not (c == b' ') && not f then begun else if c == b' ' && f then ended else passed

-- The words of a line: the program's name is the first one, or the line if there is none. `argv` is
-- what the array holds before.
unfoldable pub split_words : List ℕ → List ℕ → Outcome Line
split_words line argv = split_line 0 false line 0 argv >>= λ l.
    let named = write l.argv 0 0 >>= λ argv'. ok (record l { argv = argv' }) in
    if l.argc == 0 then named else ok l
