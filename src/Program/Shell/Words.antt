-- ===== src/Program/Shell/Words.antt =====
-- How many words a line has, and how many the shell has room for.
use create_an_os.Prelude.{
  ℕ, ◌+◌, ◌≤◌, ◌<◌, ◌≡◌, ◌≢◌, refl, arith, List, [], ◌∷◌, Bool, true, false, ◌&&◌, not, ◌==◌,
  if◌then◌else◌, length, set, Outcome, ok, fault, ◌>>=◌, write, write-ok, write-fault, length-set,
  ℕ_discrete, dec_lt, sym, ap, ◌∙◌,
}
use mathlib.Core.Path.{subst}
use create_an_os.Program.Shell.{Line, behind, split_line, split_words}

-- The words that begin in a line; `f` says that the character in front of it is part of a word.
abbrev pub word_count : Bool → List ℕ → ℕ
word_count f [] = 0
word_count f (c ∷ rest) =
    let here : ℕ = if not (c == b' ') && not f then 1 else 0 in
    here + word_count (not (c == b' ')) rest

-- The loop counts `n` words and keeps the length of the array.
abbrev Counts : ℕ → ℕ → Outcome Line → Type 0
Counts n size run = (l : Line) × (run ≡ ok l) × (l.argc ≡ n) × (length l.argv ≡ size)

Counts-behind :
    (n size c : ℕ) (run : Outcome Line) → Counts n size run → Counts n size (behind c run)
Counts-behind n size c run (l, e, k, s) = (record l { buf = c ∷ l.buf }, rw e refl, k, s)

==-space : (c : ℕ) → c ≡ b' ' → (c == b' ') ≡ true
==-space c h = ground arith

==-other : (c : ℕ) → c ≢ b' ' → (c == b' ') ≡ false
==-other c h = ground arith

word_count-space :
    (f : Bool) (c : ℕ) (rest : List ℕ) → c ≡ b' ' → word_count f (c ∷ rest) ≡ word_count false rest
word_count-space f c rest h = let e = ==-space c h in rw e (omega arith)

word_count-other :
    (c : ℕ) (rest : List ℕ)
    → c ≢ b' '
    → (word_count true (c ∷ rest) ≡ word_count true rest)
      × (word_count false (c ∷ rest) ≡ word_count true rest + 1)
word_count-other c rest h = let e = ==-other c h in rw e (omega arith, omega arith)

-- Room for `n` words, of which `k` are left in the line.
split_line-Counts :
    (i : ℕ) (f : Bool) (line : List ℕ) (argc n : ℕ) (argv : List ℕ)
    → n ≡ argc + word_count f line
    → n ≤ length argv
    → Counts n (length argv) (split_line i f line argc argv)
unfolding split_line
split_line-Counts i f [] argc n argv e h =
    (record { buf = []; argc = argc; argv = argv }, refl, omega (arith, e), refl)
split_line-Counts i true (c ∷ rest) argc n argv e h = elim (ℕ_discrete c b' ') [
  | yes z ↦
      let count = word_count-space true c rest z in
      let next =
        split_line-Counts (i + 1) false rest argc n argv (e ∙ ap (λ k. argc + k) count) h in
      let test = ==-space c z in rw test (Counts-behind n (length argv) 0 _ next)
  | no nz ↦
      let count = (word_count-other c rest nz).0 in
      let next = split_line-Counts (i + 1) true rest argc n argv (e ∙ ap (λ k. argc + k) count) h in
      let test = ==-other c nz in rw test (Counts-behind n (length argv) c _ next)
]
split_line-Counts i false (c ∷ rest) argc n argv e h = elim (ℕ_discrete c b' ') [
  | yes z ↦
      let count = word_count-space false c rest z in
      let next =
        split_line-Counts (i + 1) false rest argc n argv (e ∙ ap (λ k. argc + k) count) h in
      let test = ==-space c z in rw test (Counts-behind n (length argv) c _ next)
  | no nz ↦
      let count = (word_count-other c rest nz).1 in
      let more : n ≡ argc + (word_count true rest + 1) = e ∙ ap (λ k. argc + k) count in
      let argv' = set argv argc i in
      let size = length-set argv argc i in
      let next =
        split_line-Counts (i + 1) true rest (argc + 1) n argv' (omega (arith, more))
          (omega arith) in
      let test = ==-other c nz in
      let written = write-ok argv argc i (omega (arith, more)) in
      rw (test, written)
        (subst (λ k. Counts n k (behind c (split_line (i + 1) true rest (argc + 1) argv'))) size
          (Counts-behind n (length argv') c _ next))
]

split_line-fault :
    (i : ℕ) (f : Bool) (line : List ℕ) (argc : ℕ) (argv : List ℕ)
    → argc ≤ length argv
    → length argv < argc + word_count f line
    → split_line i f line argc argv ≡ fault
unfolding split_line
split_line-fault i f [] argc argv low h = absurd (omega arith)
split_line-fault i true (c ∷ rest) argc argv low h = elim (ℕ_discrete c b' ') [
  | yes z ↦
      let count = word_count-space true c rest z in
      let fewer : length argv < argc + word_count false rest = rw (sym count) h in
      let test = ==-space c z in
      rw (test, split_line-fault (i + 1) false rest argc argv low fewer) refl
  | no nz ↦
      let count = (word_count-other c rest nz).0 in
      let fewer : length argv < argc + word_count true rest = rw (sym count) h in
      let test = ==-other c nz in
      rw (test, split_line-fault (i + 1) true rest argc argv low fewer) refl
]
split_line-fault i false (c ∷ rest) argc argv low h = elim (ℕ_discrete c b' ') [
  | yes z ↦
      let count = word_count-space false c rest z in
      let fewer : length argv < argc + word_count false rest = rw (sym count) h in
      let test = ==-space c z in
      rw (test, split_line-fault (i + 1) false rest argc argv low fewer) refl
  | no nz ↦
      let count = (word_count-other c rest nz).1 in
      let more : length argv < argc + (word_count true rest + 1) = rw (sym count) h in
      let test = ==-other c nz in
      elim (dec_lt argc (length argv)) [
        | yes room ↦
            let size = length-set argv argc i in
            let next =
              split_line-fault (i + 1) true rest (argc + 1) (set argv argc i) (omega arith)
                (omega arith) in
            rw (test, write-ok argv argc i room, next) refl
        | no full ↦ rw (test, write-fault argv argc i full) refl
      ]
]

name-first :
    (l : Line) (n size : ℕ)
    → l.argc ≡ n
    → length l.argv ≡ size
    → 0 < size
    → Counts n size (
        if l.argc == 0
        then (write l.argv 0 0 >>= λ argv'. ok (record l { argv = argv' }))
        else ok l)
name-first l n size k s h = elim (ℕ_discrete l.argc 0) [
  | yes z ↦
      let written = write-ok l.argv 0 0 (omega (arith, s, h)) in
      let named : Line = record l { argv = set l.argv 0 0 } in
      let test : (l.argc == 0) ≡ true = ground (arith, z) in
      rw (test, written) (named, refl, k, length-set l.argv 0 0 ∙ s)
  | no nz ↦ let test : (l.argc == 0) ≡ false = ground (arith, nz) in rw test (l, refl, k, s)
]

-- If a line has no more words than the array has pointers, and there is one pointer at least, then
-- `argc` is the number of its words and the array keeps its length.
pub split_words-count :
    (line argv : List ℕ)
    → 0 < length argv
    → word_count false line ≤ length argv
    → (l : Line) × (split_words line argv ≡ ok l)
      × (l.argc ≡ word_count false line)
      × (length l.argv ≡ length argv)
unfolding split_words
split_words-count line argv h low =
    let (l, e, k, t) =
      split_line-Counts 0 false line 0 (word_count false line) argv (omega arith) low in
    rw e (name-first l (word_count false line) (length argv) k t h)

-- If a line has more words than the array has pointers, then the shell writes behind the array.
pub split_words-fault :
    (line argv : List ℕ) → length argv < word_count false line → split_words line argv ≡ fault
unfolding split_words
split_words-fault line argv over =
    rw (split_line-fault 0 false line 0 argv (omega arith) (omega (arith, over))) refl
