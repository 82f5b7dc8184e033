-- ===== src/Proc/Wait/Handover.antt =====
-- The end of a process and the wait of its father fit together.
use create_an_os.Prelude.{
  ℕ, zero, suc, ◌+◌, ◌≡◌, ◌≢◌, refl, sym, ◌∙◌, arith, List, [], ◌∷◌, false, if◌then◌else◌,
  Bool-cases, inl, inr, ℕ_discrete, ok-injective, length, set, set-read, length-set, ok, read,
  write-ok, lt-of_read, read-set_self, read-set_ne,
}
use create_an_os.Io.Terminal.{store}
use create_an_os.Proc.Table.{Pcb, ready, hanging, dead, is_waiting}
use create_an_os.Proc.Wait.{reaped, is_child, wait_round, Machine, eax_at, hand_over, adopt}
use create_an_os.Proc.Wait.Scan.{NoneEnded, scan-first}

-- The father once the child is done, the table then, and the words of memory.
abbrev pub woken : Pcb → Pcb
woken mine = if is_waiting mine.stat then record mine { stat = ready } else mine

abbrev pub left_behind : ℕ → ℕ → Pcb → Pcb → List Pcb → List Pcb
left_behind me child mine pcb procs =
    set (set procs me (woken mine)) child (record pcb { stat = hanging })

abbrev pub told : ℕ → Pcb → (ℕ → ℕ) → ℕ → ℕ
told child mine word = if is_waiting mine.stat then store word (eax_at mine.kstktop) child else word

set-same :
    (procs : List Pcb) (me : ℕ) (mine : Pcb) → read procs me ≡ ok mine → set procs me mine ≡ procs
set-same procs me mine h = set-read procs me mine h

pub hand_over_lem :
    (me child : ℕ) (mine pcb : Pcb) (m : Machine)
    → read m.procs me ≡ ok mine
    → read m.procs child ≡ ok pcb
    → me ≢ child
    → hand_over child me m
      ≡ ok (record { procs = left_behind me child mine pcb m.procs; word = told child mine m.word })
unfolding hand_over
hand_over_lem me child mine pcb m own here ne =
    let inside = lt-of_read m.procs me mine own in
    let there = lt-of_read m.procs child pcb here in
    elim (Bool-cases (is_waiting mine.stat)) [
      | inl w ↦
          let first : Pcb = record mine { stat = ready } in
          rw (
            own,
            w,
            write-ok m.procs me first inside,
            read-set_ne m.procs me child first ne,
            here,
            write-ok (set m.procs me first) child (record pcb { stat = hanging })
                (omega (arith, length-set m.procs me first)),
          )
      | inr w ↦ rw (
        own,
        w,
        here,
        write-ok m.procs child (record pcb { stat = hanging }) there,
        set-read m.procs me mine own,
      )
    ]

-- Handing the children of `me` to process 0 leaves none of them to it.
pub adopt-read :
    (me i k : ℕ) (procs : List Pcb) (pcb : Pcb)
    → read procs k ≡ ok pcb
    → read (adopt me i procs) k
      ≡ ok (if is_child me (i + k) pcb then record pcb { father = 0 } else pcb)
unfolding adopt read
adopt-read me i k [] pcb h = absurd (cc)
adopt-read me i zero (x ∷ procs) pcb h =
    let same : x ≡ pcb = ok-injective x pcb h in
    let here : i + 0 ≡ i = omega arith in rw (here, same)
adopt-read me i (suc k) (x ∷ procs) pcb h =
    let next : i + suc k ≡ i + 1 + k = omega arith in rw next (adopt-read me (i + 1) k procs pcb h)

module _ (me child : ℕ) (mine pcb : Pcb) (procs : List Pcb) (ne : me ≢ child) where
  -- Who has not ended before has not ended after.
  none_before :
      read procs me ≡ ok mine
      → NoneEnded me procs 0 child
      → NoneEnded me (left_behind me child mine pcb procs) 0 child
  none_before own none j q low below at c = elim (ℕ_discrete me j) [
    | yes e ↦ absurd (not_own e)
    | no other ↦
        none j q low below
          (sym (read-set_ne procs me j (woken mine) other)
            ∙ sym (
                read-set_ne (set procs me (woken mine)) child j (record pcb { stat = hanging })
                  (omega arith))
            ∙ at)
          c
  ]
    where
      not_own : me ≢ j
      not_own e = ground (arith, c, e)

  at_child :
      read procs child ≡ ok pcb
      → read (left_behind me child mine pcb procs) child ≡ ok (record pcb { stat = hanging })
  at_child here =
      read-set_self (set procs me (woken mine)) child (record pcb { stat = hanging })
        (omega (arith, length-set procs me (woken mine), lt-of_read procs child pcb here))

  at_father :
      read procs me ≡ ok mine → read (left_behind me child mine pcb procs) me ≡ ok (woken mine)
  at_father own =
      read-set_ne (set procs me (woken mine)) child me (record pcb { stat = hanging })
        (λ e. ne (sym e))
      ∙ read-set_self procs me (woken mine) (lt-of_read procs me mine own)

-- In a table of 32 slots, a child that ends returns to the scheduler with its father ready and
-- told the child's number, if the father waits; in either case the father's next round marks the
-- child dead and returns its pid, if no child in a lower slot has ended.
pub wait_round-hand_over :
    (me child : ℕ) (mine pcb : Pcb) (m : Machine)
    → length m.procs ≡ 32
    → read m.procs me ≡ ok mine
    → read m.procs child ≡ ok pcb
    → pcb.father ≡ me
    → me ≢ child
    → NoneEnded me m.procs 0 child
    → (m' : Machine) × (procs : List Pcb) × (hand_over child me m ≡ ok m')
      × (read m'.procs me
          ≡ ok (if is_waiting mine.stat then record mine { stat = ready } else mine))
      × (m'.word (eax_at mine.kstktop)
          ≡ (if is_waiting mine.stat then child else m.word (eax_at mine.kstktop)))
      × (wait_round me m'.procs ≡ ok (reaped pcb.pid procs))
      × (read procs child ≡ ok (record pcb { stat = dead }))
unfolding wait_round
wait_round-hand_over me child mine pcb m size own here father ne none =
    let after = left_behind me child mine pcb m.procs in
    let ended : Pcb = record pcb { stat = hanging } in
    let inside = lt-of_read m.procs child pcb here in
    let same_size : length after ≡ length m.procs =
      length-set (set m.procs me (woken mine)) child ended ∙ length-set m.procs me (woken mine) in
    (
      record { procs = after; word = told child mine m.word },
      set after child (record pcb { stat = dead }),
      hand_over_lem me child mine pcb m own here ne,
      at_father me child mine pcb m.procs ne own,
      ground arith,
      scan-first me after 32 0 child false ended (omega arith) (omega arith) (omega arith)
          (at_child me child mine pcb m.procs ne here) (ground arith) refl
          (none_before me child mine pcb m.procs ne own none),
      read-set_self after child (record pcb { stat = dead }) (omega arith),
    )
