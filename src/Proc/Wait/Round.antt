-- ===== src/Proc/Wait/Round.antt =====
-- What a round of `sys_wait` finds.
use create_an_os.Prelude.{
  ℕ, zero, suc, ◌+◌, ◌≤◌, ◌<◌, ◌≡◌, ◌≢◌, sym, ap, ◌∙◌, ◌⊎◌, arith, List, true, false, ◌&&◌,
  Bool-cases, inl, inr, ℕ_discrete, ok-injective, length, set, ok, read, read-some, lt-of_read,
}
use create_an_os.Proc.Table.{Pcb, waiting, dead, is_hanging, is_empty}
use create_an_os.Proc.Wait.{Waited, reaped, alone, sleeps, is_child, wait_round}
use create_an_os.Proc.Wait.Scan.{NoneEnded, scan-first, scan-child, scan-alone}

module _ (me : ℕ) (procs : List Pcb) where
  -- Either a first child has ended in the slots from `i` on, or none has.
  search_ended :
      (left i : ℕ)
      → i + left ≤ length procs
      → ((j : ℕ) × (pcb : Pcb) × (i ≤ j)
          × (read procs j ≡ ok pcb)
          × (is_child me j pcb ≡ true)
          × (is_hanging pcb.stat ≡ true)
          × NoneEnded me procs i j)
        ⊎ NoneEnded me procs i (i + left)
  search_ended zero i all = inr (λ j q p b. absurd (omega arith))
  search_ended (suc left) i all =
      let (q, found) = read-some procs i (omega arith) in
      elim (Bool-cases (is_child me i q && is_hanging q.stat)) [
        | inl both ↦ inl (
          i,
          q,
          omega arith,
          found,
          (ground (arith, both)),
          (ground (arith, both)),
          λ j r p b. absurd (omega arith),
        )
        | inr neither ↦
            let here = λ (r : Pcb) (e : read procs i ≡ ok r) (c : is_child me i r ≡ true).
              not_ended i q r found e c neither in
            elim (search_ended left (i + 1) (omega arith)) [
              | inl (j, pcb, low, at, c, e, none) ↦
                  inl (j, pcb, omega arith, at, c, e, from_next i j here none)
              | inr none ↦
                  inr (from_next i (i + suc left) here (λ j r p b. none j r p (omega arith)))
            ]
      ]
    where
      not_ended :
          (i : ℕ) (q r : Pcb)
          → read procs i ≡ ok q
          → read procs i ≡ ok r
          → is_child me i r ≡ true
          → (is_child me i q && is_hanging q.stat) ≡ false
          → is_hanging r.stat ≡ false
      not_ended i q r found e c neither =
          let same = ok-injective q r (sym found ∙ e) in
          let swapped : (is_child me i r && is_hanging r.stat) ≡ false =
            ap (λ (p : Pcb). is_child me i p && is_hanging p.stat) (sym same) ∙ neither in
          rw c at swapped

      from_next :
          (i end : ℕ)
          → ((r : Pcb) → read procs i ≡ ok r → is_child me i r ≡ true → is_hanging r.stat ≡ false)
          → NoneEnded me procs (i + 1) end
          → NoneEnded me procs i end
      from_next i end here none j r low below at c = elim (ℕ_discrete i j) [
        | yes e ↦ here r (ap (read procs) e ∙ at) (ap (λ k. is_child me k r) e ∙ c)
        | no ne ↦ none j r (omega arith) below at c
      ]

  search_child :
      (left i : ℕ)
      → i + left ≤ length procs
      → ((j : ℕ) × (pcb : Pcb) × (read procs j ≡ ok pcb) × (is_child me j pcb ≡ true))
        ⊎ ((j : ℕ) (q : Pcb) → i ≤ j → j < i + left → read procs j ≡ ok q → is_child me j q ≡ false)
  search_child zero i all = inr (λ j q p b. absurd (omega arith))
  search_child (suc left) i all =
      let (r, found) = read-some procs i (omega arith) in
      elim (Bool-cases (is_child me i r)) [
        | inl c ↦ inl (i, r, found, c)
        | inr c ↦ elim (search_child left (i + 1) (omega arith)) [
          | inl met ↦ inl met
          | inr none ↦ inr (λ j q low below at. elim (ℕ_discrete i j) [
            | yes e ↦
                let same = ok-injective r q (sym found ∙ ap (read procs) e ∙ at) in
                ap (λ k. is_child me k q) (sym e) ∙ ap (is_child me i) (sym same) ∙ c
            | no ne ↦ none j q (omega arith) (omega arith) at
          ])
        ]
      ]

-- What a round finds in the table, and does.
pub data Finds (me : ℕ) (mine : Pcb) (procs : List Pcb) : Waited → Type 0 where
  child_ended :
      (j : ℕ) (pcb : Pcb)
      → read procs j ≡ ok pcb
      → is_child me j pcb ≡ true
      → is_hanging pcb.stat ≡ true
      → NoneEnded me procs 0 j
      → Finds me mine procs (reaped pcb.pid (set procs j (record pcb { stat = dead })))
  none_ended :
      (j : ℕ) (pcb : Pcb)
      → read procs j ≡ ok pcb
      → is_child me j pcb ≡ true
      → NoneEnded me procs 0 (length procs)
      → Finds me mine procs (sleeps (set procs me (record mine { stat = waiting })))
  no_child :
      ((j : ℕ) (q : Pcb) → read procs j ≡ ok q → is_child me j q ≡ false)
      → Finds me mine procs alone

-- A round of `sys_wait` on a table of 32 slots returns. If a child has ended, the one in the lowest
-- slot is marked dead, nothing else changes, and its pid is the result; if there are children but
-- none has ended, the caller is marked as waiting; if there is no child the result is -1. A child
-- is a slot whose `father` is the caller, whatever its state.
pub wait_round-Finds :
    (me : ℕ) (mine : Pcb) (procs : List Pcb)
    → length procs ≡ 32
    → read procs me ≡ ok mine
    → (w : Waited) × (wait_round me procs ≡ ok w) × Finds me mine procs w
unfolding wait_round
wait_round-Finds me mine procs size own = elim (search_ended me procs 32 0 (omega arith)) [
  | inl (j, pcb, low, here, c, e, none) ↦ (
    reaped pcb.pid (set procs j (record pcb { stat = dead })),
    scan-first me procs 32 0 j false pcb low (omega (arith, lt-of_read procs j pcb here))
        (omega arith) here c e none,
    child_ended j pcb here c e none,
  )
  | inr none ↦ elim (search_child me procs 32 0 (omega arith)) [
    | inl (j, pcb, here, c) ↦ (
      sleeps (set procs me (record mine { stat = waiting })),
      scan-child me procs 32 0 j mine pcb (omega arith) (omega (arith, lt-of_read procs j pcb here))
          (omega arith) own here c none,
      none_ended j pcb here c (λ k r p b. none k r p (omega arith)),
    )
    | inr no_one ↦
        let nobody = λ (j : ℕ) (q : Pcb) (h : read procs j ≡ ok q).
          no_one j q (omega arith) (omega (arith, lt-of_read procs j q h)) h in
        (alone, scan-alone me procs 32 0 (omega arith) nobody, no_child nobody)
  ]
]

-- In a table of 32 slots, the slot of a child that is dead and gone still names its father: while
-- no other child has ended the father of an empty slot goes to sleep instead of learning that it
-- has no child.
pub wait_round-stale :
    (me i : ℕ) (mine gone : Pcb) (procs : List Pcb)
    → length procs ≡ 32
    → read procs me ≡ ok mine
    → read procs i ≡ ok gone
    → is_empty gone.stat ≡ true
    → gone.father ≡ me
    → i ≢ me
    → NoneEnded me procs 0 32
    → wait_round me procs ≡ ok (sleeps (set procs me (record mine { stat = waiting })))
unfolding wait_round
wait_round-stale me i mine gone procs size own here vacant father ne none =
    scan-child me procs 32 0 i mine gone (omega arith) (omega (arith, lt-of_read procs i gone here))
      (omega arith) own here (ground arith) none
