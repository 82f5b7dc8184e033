-- ===== src/Proc/Wait/Scan.antt =====
-- The loop of `sys_wait` over the table, for each of the things that it can find.
use create_an_os.Prelude.{
  ℕ, zero, suc, ◌+◌, ◌≤◌, ◌<◌, ◌≡◌, ◌≢◌, refl, sym, ap, ◌∙◌, arith, List, Bool, true, false,
  Bool-cases, inl, inr, ℕ_discrete, ok-injective, length, set, ok, read, read-some, write-ok,
  lt-of_read,
}
use create_an_os.Proc.Table.{Pcb, waiting, dead, is_hanging}
use create_an_os.Proc.Wait.{reaped, alone, sleeps, is_child, scan}

-- No child of `me` in a slot from `i` on, before `end`, has ended.
abbrev pub NoneEnded : ℕ → List Pcb → ℕ → ℕ → Type 0
NoneEnded me procs i end =
    (j : ℕ) (q : Pcb)
    → i ≤ j
    → j < end
    → read procs j ≡ ok q
    → is_child me j q ≡ true
    → is_hanging q.stat ≡ false

module _ (left i me : ℕ) (f : Bool) (procs : List Pcb) (pcb : Pcb)
    (here : read procs i ≡ ok pcb) where
  scan-reap :
      is_child me i pcb ≡ true
      → is_hanging pcb.stat ≡ true
      → scan (suc left) i f me procs
        ≡ ok (reaped pcb.pid (set procs i (record pcb { stat = dead })))
  unfolding scan
  scan-reap child ended = rw (
    here,
    child,
    ended,
    write-ok procs i (record pcb { stat = dead }) (lt-of_read procs i pcb here),
  )

  scan-met :
      is_child me i pcb ≡ true
      → is_hanging pcb.stat ≡ false
      → scan (suc left) i f me procs ≡ scan left (i + 1) true me procs
  unfolding scan
  scan-met child lives = rw (here, child, lives)

  scan-other :
      is_child me i pcb ≡ false → scan (suc left) i f me procs ≡ scan left (i + 1) f me procs
  unfolding scan
  scan-other other = rw (here, other)

true-false : ¬ (true ≡ false)
true-false e = cc

module _ (me : ℕ) (procs : List Pcb) where
  -- The child in slot `j` is the first that has ended.
  pub scan-first :
      (left i j : ℕ) (f : Bool) (pcb : Pcb)
      → i ≤ j
      → j < i + left
      → i + left ≤ length procs
      → read procs j ≡ ok pcb
      → is_child me j pcb ≡ true
      → is_hanging pcb.stat ≡ true
      → NoneEnded me procs i j
      → scan left i f me procs ≡ ok (reaped pcb.pid (set procs j (record pcb { stat = dead })))
  scan-first zero i j f pcb low high all here child ended none = absurd (omega arith)
  scan-first (suc left) i j f pcb low high all here child ended none = elim (ℕ_discrete i j) [
    | yes e ↦
        scan-reap left i me f procs pcb (ap (read procs) e ∙ here)
          (ap (λ k. is_child me k pcb) e ∙ child) ended
        ∙ ap (λ k. ok (reaped pcb.pid (set procs k (record pcb { stat = dead })))) e
    | no ne ↦
        let (q, found) = read-some procs i (omega arith) in
        let later : NoneEnded me procs (i + 1) j = λ k r p. none k r (omega arith) in
        elim (Bool-cases (is_child me i q)) [
          | inl c ↦
              scan-met left i me f procs q found c (none i q (omega arith) (omega arith) found c)
              ∙ scan-first left (i + 1) j true pcb (omega arith) (omega arith) (omega arith) here
                  child ended later
          | inr c ↦
              scan-other left i me f procs q found c
              ∙ scan-first left (i + 1) j f pcb (omega arith) (omega arith) (omega arith) here child
                  ended later
        ]
  ]

  -- No child has ended, and one was met.
  pub scan-sleeps :
      (left i : ℕ) (mine : Pcb)
      → i + left ≤ length procs
      → read procs me ≡ ok mine
      → NoneEnded me procs i (i + left)
      → scan left i true me procs ≡ ok (sleeps (set procs me (record mine { stat = waiting })))
  scan-sleeps zero i mine all own none =
      unfold scan in
      rw (own, write-ok procs me (record mine { stat = waiting }) (lt-of_read procs me mine own))
  scan-sleeps (suc left) i mine all own none =
      let (q, found) = read-some procs i (omega arith) in
      let later : NoneEnded me procs (i + 1) (i + 1 + left) =
        λ k r p b. none k r (omega arith) (omega arith) in
      let rest = scan-sleeps left (i + 1) mine (omega arith) own later in
      elim (Bool-cases (is_child me i q)) [
        | inl c ↦
            scan-met left i me true procs q found c (none i q (omega arith) (omega arith) found c)
            ∙ rest
        | inr c ↦ scan-other left i me true procs q found c ∙ rest
      ]

  -- A slot with a child and one without are two.
  differs :
      (i j : ℕ) (q pcb : Pcb)
      → read procs i ≡ ok q
      → read procs j ≡ ok pcb
      → is_child me i q ≡ false
      → is_child me j pcb ≡ true
      → i ≢ j
  differs i j q pcb found here c child e =
      let same = ok-injective q pcb (sym found ∙ ap (read procs) e ∙ here) in
      true-false
        (sym child ∙ ap (λ k. is_child me k pcb) (sym e) ∙ ap (is_child me i) (sym same) ∙ c)

  -- No child has ended, and one is in slot `j`.
  pub scan-child :
      (left i j : ℕ) (mine pcb : Pcb)
      → i ≤ j
      → j < i + left
      → i + left ≤ length procs
      → read procs me ≡ ok mine
      → read procs j ≡ ok pcb
      → is_child me j pcb ≡ true
      → NoneEnded me procs i (i + left)
      → scan left i false me procs ≡ ok (sleeps (set procs me (record mine { stat = waiting })))
  scan-child zero i j mine pcb low high all own here child none = absurd (omega arith)
  scan-child (suc left) i j mine pcb low high all own here child none =
      let (q, found) = read-some procs i (omega arith) in
      let later : NoneEnded me procs (i + 1) (i + 1 + left) =
        λ k r p b. none k r (omega arith) (omega arith) in
      elim (Bool-cases (is_child me i q)) [
        | inl c ↦
            scan-met left i me false procs q found c (none i q (omega arith) (omega arith) found c)
            ∙ scan-sleeps left (i + 1) mine (omega arith) own later
        | inr c ↦
            let ne = differs i j q pcb found here c child in
            scan-other left i me false procs q found c
            ∙ scan-child left (i + 1) j mine pcb (omega (arith, ne)) (omega arith) (omega arith) own
                here child later
      ]

  -- No child at all.
  pub scan-alone :
      (left i : ℕ)
      → i + left ≤ length procs
      → ((j : ℕ) (q : Pcb) → read procs j ≡ ok q → is_child me j q ≡ false)
      → scan left i false me procs ≡ ok alone
  scan-alone zero i all none = unfold scan in refl
  scan-alone (suc left) i all none =
      let (q, found) = read-some procs i (omega arith) in
      scan-other left i me false procs q found (none i q found)
      ∙ scan-alone left (i + 1) (omega arith) none
