-- ===== src/Sys/Timer/Tests.antt =====
-- The timer at concrete inputs.
use create_an_os.Prelude.{
  ℕ, ◌+◌, ◌%◌, ◌^◌, ◌≡◌, refl, arith, [], ◌∷◌, none, ◌==◌, if◌then◌else◌, replicate, ok, ◌>>=◌,
  read, write,
}
use create_an_os.Io.Kb.{keyboard_handler, receive, advance, init_keyboard_interrupt}
use create_an_os.Mem.Paging.{page_table_start, page_vir_to_phy}
use create_an_os.Proc.Table.{Pcb, Status, ready, hanging}
use create_an_os.Proc.Schedule.{schedule, find_ready, switch_to}
use create_an_os.Sys.Frame.{zero_frame}
use create_an_os.Sys.Timer.{Clock, sys_get_ticks, timer_handler, poll_keyboard, end_quantum}
use create_an_os.Sys.Timer.Quantum.{timer_run, timer_run-quantum, timer_handler-yields}

abbrev process : Status → Pcb
process s = record {
  regs = zero_frame;
  kstktop = 0xc0500f00;
  fds = replicate 4 none;
  pde = page_table_start;
  tty = 0;
  stat = s;
  father = 0;
  privilege = 3;
  pid = 0;
}

abbrev clock : Status → ℕ → Clock
clock s ticks = record {
  ticks = ticks;
  kb = init_keyboard_interrupt;
  cpu = record {
    procs = process s ∷ process ready ∷ replicate 30 (process hanging);
    current_proc = 0;
    esp0 = 0;
    cr3 = 0;
    frames = record { page_bitmap = 0xff ∷ replicate 27 0; word = λ a. 0 };
  };
}

switched :
    timer_handler [] (clock ready 3) >>= (λ t. ok (t.cpu.current_proc + sys_get_ticks t)) ≡ ok 5
unfolding timer_handler poll_keyboard end_quantum schedule find_ready switch_to sys_get_ticks read
    page_vir_to_phy
switched = refl

polled : timer_handler (0x1e ∷ 0x9e ∷ []) (clock ready 15) >>= (λ t. ok t.kb.cnt) ≡ ok 2
unfolding timer_handler poll_keyboard end_quantum schedule find_ready switch_to keyboard_handler
    receive advance init_keyboard_interrupt read write page_vir_to_phy
polled = refl

timer_run-quantum_example : timer_run ([] ∷ [] ∷ [] ∷ (0x1e ∷ []) ∷ []) (clock ready 12) ≡ (
    (if (12 + 4) % 16 == 0
      then keyboard_handler (0x1e ∷ []) (clock ready 12).kb
      else ok (clock ready 12).kb)
    >>= λ kb. schedule (clock ready 12).cpu >>= λ cpu.
        ok (record { ticks = (12 + 4) % 2 ^ 32; kb = kb; cpu = cpu }))
timer_run-quantum_example =
    timer_run-quantum [] [] [] (0x1e ∷ []) (clock ready 12) (process ready) (omega arith)
      (unfold read in refl) refl

timer_handler-yields_example : timer_handler [] (clock hanging 0) ≡ (
    (if (0 + 1) % 16 == 0
      then keyboard_handler [] (clock hanging 0).kb
      else ok (clock hanging 0).kb)
    >>= λ kb. schedule (clock hanging 0).cpu >>= λ cpu.
        ok (record { ticks = (0 + 1) % 2 ^ 32; kb = kb; cpu = cpu }))
timer_handler-yields_example =
    timer_handler-yields [] (clock hanging 0) (process hanging) (unfold read in refl) refl
