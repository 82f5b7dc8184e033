-- ===== src/Proc/Fork/Stack.antt =====
-- The kernel stack of a new process: the copy of its caller's, and the frame below it.
use create_an_os.Prelude.{
  ℕ, zero, suc, ◌+◌, ◌*◌, ◌%◌, ◌^◌, ◌≤◌, ◌<◌, ◌≡◌, ◌≢◌, refl, ap₂, dec_lt, ◌∙◌, ◌⊎◌, inl, inr,
  arith, List, [], ◌∷◌, ◌==◌, if◌then◌else◌, length,
}
use create_an_os.Io.Terminal.{store}
use create_an_os.Mem.Fault.{Space}
use create_an_os.Mem.Copy.Table.{copy_words_lem}
use create_an_os.Proc.Fork.{
  proc_kstack_table_start, store_words, resume_frame, copied_stack, child_words,
}

-- The words of memory from `a` on.
abbrev pub words_at : ℕ → ℕ → (ℕ → ℕ) → List ℕ
words_at zero a word = []
words_at (suc n) a word = word a ∷ words_at n (a + 4) word

store_words-kept :
    (words : List ℕ) (a b : ℕ) (word : ℕ → ℕ)
    → (b < a) ⊎ (a + 4 * length words ≤ b)
    → store_words a words word b ≡ word b
unfolding store_words
store_words-kept [] a b word out = refl
store_words-kept (w ∷ words) a b word out =
    store_words-kept words (a + 4) b (store word a w) (ground (arith, out)) ∙ ground (arith, out)

words_at-store_words :
    (words : List ℕ) (a : ℕ) (word : ℕ → ℕ)
    → words_at (length words) a (store_words a words word) ≡ words
unfolding store_words
words_at-store_words [] a word = refl
words_at-store_words (w ∷ words) a word =
    ap₂ ◌∷◌ (store_words-kept words (a + 4) a (store word a w) (inl (omega arith)) ∙ ground arith)
      (words_at-store_words words (a + 4) (store word a w))

words_at-agree :
    (n a : ℕ) (w w' : ℕ → ℕ)
    → ((b : ℕ) → a ≤ b → b < a + 4 * n → w' b ≡ w b)
    → words_at n a w' ≡ words_at n a w
words_at-agree zero a w w' same = refl
words_at-agree (suc n) a w w' same =
    ap₂ ◌∷◌ (same a (omega arith) (omega arith))
      (words_at-agree n (a + 4) w w' (λ b low high. same b (omega arith) (omega arith)))

-- The stack of the new process.
module _ (resume privilege newesp distance : ℕ) (word : ℕ → ℕ) where
  pub child_frame :
      words_at 17 newesp (child_words resume privilege (newesp + 68) newesp distance word)
      ≡ resume_frame resume
  unfolding child_words
  child_frame =
      words_at-agree 17 newesp (store_words newesp (resume_frame resume) word)
        (child_words resume privilege (newesp + 68) newesp distance word)
        (λ b low high. ground (arith, high))
      ∙ words_at-store_words (resume_frame resume) newesp word

  pub child_ebp :
      child_words resume privilege (newesp + 68) newesp distance word (newesp + 68 + 24) ≡ (
        if privilege == 0
        then (word (newesp + 68 + 24) + distance) % 2 ^ 32
        else word (newesp + 68 + 24))
  unfolding child_words
  child_ebp =
      let kept =
        store_words-kept (resume_frame resume) newesp (newesp + 68 + 24) word (inr (omega arith)) in
      rw kept (ground arith)

-- Word `j` of the kernel stack of process `i`.
abbrev pub stack_word : ℕ → ℕ → ℕ
stack_word i j = proc_kstack_table_start + 0x1000 * i + 4 * j

pub copied_stack-word :
    (newpid me j : ℕ) (s : Space)
    → newpid ≢ me
    → j < 1024
    → (copied_stack newpid me s).frames.word (stack_word newpid j) ≡ s.frames.word (stack_word me j)
copied_stack-word newpid me j s ne h =
    (copy_words_lem 1024 0 (proc_kstack_table_start + 0x1000 * newpid)
        (proc_kstack_table_start + 0x1000 * me) s.frames.word (apart newpid me ne)).0
      j (omega arith) (omega arith)
  where
    apart :
        (newpid me : ℕ)
        → newpid ≢ me
        → (proc_kstack_table_start + 0x1000 * newpid + 4 * (0 + 1024)
            ≤ proc_kstack_table_start + 0x1000 * me + 4 * 0)
          ⊎ (proc_kstack_table_start + 0x1000 * me + 4 * (0 + 1024)
              ≤ proc_kstack_table_start + 0x1000 * newpid + 4 * 0)
    apart newpid me ne = elim (dec_lt newpid me) [
      | yes p ↦ inl (omega arith)
      | no p ↦ inr (omega (arith, p, ne))
    ]

pub child_words-above :
    (resume privilege newesp distance a : ℕ) (word : ℕ → ℕ)
    → newesp + 68 ≤ a
    → a ≢ newesp + 68 + 24
    → child_words resume privilege (newesp + 68) newesp distance word a ≡ word a
unfolding child_words
child_words-above resume privilege newesp distance a word h ne =
    let kept = store_words-kept (resume_frame resume) newesp a word (inr (omega arith)) in
    ground (arith, kept, ne)
