-- ===== src/Sys/Timer/Quantum.antt =====
-- How long a process runs: four interrupts of the timer are one call of the scheduler.
use create_an_os.Prelude.{
  ℕ, ◌+◌, ◌%◌, ◌^◌, ◌≡◌, ◌≢◌, refl, arith, bit_and, List, [], ◌∷◌, ap, Bool, true, false, ◌==◌,
  if◌then◌else◌, Outcome, ok, ◌>>=◌, bind-ok, read,
}
use create_an_os.Prelude.Bits.{bit_and_mask}
use create_an_os.Io.Kb.{keyboard_handler}
use create_an_os.Proc.Table.{Pcb, is_ready}
use create_an_os.Proc.Schedule.{Processor, schedule}
use create_an_os.Sys.Timer.{Clock, poll_keyboard, end_quantum, timer_handler}

-- A run of interrupts, one for each list of bytes.
unfoldable pub timer_run : List (List ℕ) → Clock → Outcome Clock
timer_run [] t = ok t
timer_run (bytes ∷ polls) t = timer_handler bytes t >>= timer_run polls

-- An interrupt within a quantum counts, and leaves a ready process running.
timer_handler-keeps :
    (bytes : List ℕ) (t : Clock) (pcb : Pcb)
    → (t.ticks + 1) % 4 ≢ 0
    → read t.cpu.procs t.cpu.current_proc ≡ ok pcb
    → is_ready pcb.stat ≡ true
    → timer_handler bytes t ≡ ok (record t { ticks = (t.ticks + 1) % 2 ^ 32 })
unfolding timer_handler poll_keyboard end_quantum
timer_handler-keeps bytes t pcb within own runs =
    let no_poll : ((t.ticks + 1) % 2 ^ 32 % 2 ^ 4 == 0) ≡ false = ground (arith, within) in
    let no_end : ((t.ticks + 1) % 2 ^ 32 % 2 ^ 2 == 0) ≡ false = ground (arith, within) in
    rw
      (
        bit_and_mask 4 ((t.ticks + 1) % 2 ^ 32),
        no_poll,
        bit_and_mask 2 ((t.ticks + 1) % 2 ^ 32),
        no_end,
        own,
        runs,
      )
      refl

-- The last interrupt of a quantum calls the scheduler, and every fourth of them the keyboard.
timer_handler-ends :
    (bytes : List ℕ) (t : Clock)
    → (t.ticks + 1) % 4 ≡ 0
    → timer_handler bytes t ≡ (
        (if (t.ticks + 1) % 16 == 0 then keyboard_handler bytes t.kb else ok t.kb) >>= λ kb.
        schedule t.cpu >>= λ cpu.
        ok (record { ticks = (t.ticks + 1) % 2 ^ 32; kb = kb; cpu = cpu }))
unfolding timer_handler poll_keyboard end_quantum
timer_handler-ends bytes t end =
    let poll : (t.ticks + 1) % 2 ^ 32 % 2 ^ 4 ≡ (t.ticks + 1) % 16 = omega arith in
    let ends : ((t.ticks + 1) % 2 ^ 32 % 2 ^ 2 == 0) ≡ true = ground (arith, end) in
    rw
      (bit_and_mask 4 ((t.ticks + 1) % 2 ^ 32), poll, bit_and_mask 2 ((t.ticks + 1) % 2 ^ 32), ends)
      refl

either : (b : Bool) (o : Outcome Processor) → (if b then o else o) ≡ o
either true o = refl
either false o = refl

-- A process that does not run any more, as after `int $0x20`, gives the processor up at once.
pub timer_handler-yields :
    (bytes : List ℕ) (t : Clock) (pcb : Pcb)
    → read t.cpu.procs t.cpu.current_proc ≡ ok pcb
    → is_ready pcb.stat ≡ false
    → timer_handler bytes t ≡ (
        (if (t.ticks + 1) % 16 == 0 then keyboard_handler bytes t.kb else ok t.kb) >>= λ kb.
        schedule t.cpu >>= λ cpu.
        ok (record { ticks = (t.ticks + 1) % 2 ^ 32; kb = kb; cpu = cpu }))
unfolding timer_handler poll_keyboard end_quantum
timer_handler-yields bytes t pcb own sleeps =
    let poll : (t.ticks + 1) % 2 ^ 32 % 2 ^ 4 ≡ (t.ticks + 1) % 16 = omega arith in
    rw (bit_and_mask 4 ((t.ticks + 1) % 2 ^ 32), poll, own, sleeps)
      (ap
        (λ next.
          (if (t.ticks + 1) % 16 == 0 then keyboard_handler bytes t.kb else ok t.kb) >>= λ kb.
          next >>= λ cpu. ok (record { ticks = (t.ticks + 1) % 2 ^ 32; kb = kb; cpu = cpu }))
        (either (bit_and ((t.ticks + 1) % 2 ^ 32) 0b11 == 0) (schedule t.cpu)))

abbrev at_ticks : ℕ → Clock → Clock
at_ticks ticks t = record t { ticks = ticks }

-- At the start of a quantum a ready process has the processor for three more interrupts; the
-- fourth is one call of the scheduler, with a look at the keyboard at every sixteenth interrupt.
-- Nothing else happens in these four, whatever the keyboard has for them.
pub timer_run-quantum :
    (b₁ b₂ b₃ b₄ : List ℕ) (t : Clock) (pcb : Pcb)
    → t.ticks % 4 ≡ 0
    → read t.cpu.procs t.cpu.current_proc ≡ ok pcb
    → is_ready pcb.stat ≡ true
    → timer_run (b₁ ∷ b₂ ∷ b₃ ∷ b₄ ∷ []) t ≡ (
        (if (t.ticks + 4) % 16 == 0 then keyboard_handler b₄ t.kb else ok t.kb) >>= λ kb.
        schedule t.cpu >>= λ cpu.
        ok (record { ticks = (t.ticks + 4) % 2 ^ 32; kb = kb; cpu = cpu }))
unfolding timer_run
timer_run-quantum b₁ b₂ b₃ b₄ t pcb start own runs =
    let two : ((t.ticks + 1) % 2 ^ 32 + 1) % 2 ^ 32 ≡ (t.ticks + 2) % 2 ^ 32 = omega arith in
    let three : ((t.ticks + 2) % 2 ^ 32 + 1) % 2 ^ 32 ≡ (t.ticks + 3) % 2 ^ 32 = omega arith in
    let four : ((t.ticks + 3) % 2 ^ 32 + 1) % 2 ^ 32 ≡ (t.ticks + 4) % 2 ^ 32 = omega arith in
    let sixteenth : ((t.ticks + 3) % 2 ^ 32 + 1) % 16 ≡ (t.ticks + 4) % 16 = omega arith in
    rw
      (
        timer_handler-keeps b₁ t pcb (omega arith) own runs,
        timer_handler-keeps b₂ (at_ticks ((t.ticks + 1) % 2 ^ 32) t) pcb (omega arith) own runs,
        two,
        timer_handler-keeps b₃ (at_ticks ((t.ticks + 2) % 2 ^ 32) t) pcb (omega arith) own runs,
        three,
        timer_handler-ends b₄ (at_ticks ((t.ticks + 3) % 2 ^ 32) t) (omega arith),
        sixteenth,
        four,
      )
      (bind-ok _)
