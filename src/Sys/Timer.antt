-- ===== src/Sys/Timer.antt =====
-- sys/timer.c: what the kernel does on each interrupt of the timer. `bytes` is what the keyboard
-- controller has ready then. The end-of-interrupt command and the controller's mask bit, single
-- writes to a port, are not modelled.
pub mod Quantum
mod Tests
use create_an_os.Prelude.{
  ℕ, ◌+◌, ◌%◌, ◌^◌, bit_and, List, Bool, not, ◌==◌, if◌then◌else◌, Outcome, ok, ◌>>=◌, read,
}
use create_an_os.Io.Kb.{Kb, keyboard_handler}
use create_an_os.Proc.Table.{is_ready}
use create_an_os.Proc.Schedule.{Processor, schedule}

pub record Clock : Type 0 where
  pub ticks : ℕ
  pub kb : Kb
  pub cpu : Processor

-- `ticks` at the start; the handler's registration is in the kernel's table.
unfoldable pub init_timer_interrupt : Clock → Clock
init_timer_interrupt t = record t { ticks = 0 }

-- `if(!(ticks & 0b1111))keyboard_handler(param);`
unfoldable pub poll_keyboard : ℕ → List ℕ → Kb → Outcome Kb
poll_keyboard ticks bytes kb =
    let polled = keyboard_handler bytes kb in if bit_and ticks 0b1111 == 0 then polled else ok kb

-- `if(!(ticks & 0b11) || proc_table[current_proc]->stat != READY)schedule();`
unfoldable pub end_quantum : ℕ → Processor → Outcome Processor
end_quantum ticks cpu =
    let chosen = schedule cpu in
    let checked : Outcome Processor =
      read cpu.procs cpu.current_proc >>= λ pcb. if is_ready pcb.stat then ok cpu else chosen in
    if bit_and ticks 0b11 == 0 then chosen else checked

unfoldable pub timer_handler : List ℕ → Clock → Outcome Clock
timer_handler bytes t =
    let ticks = (t.ticks + 1) % 2 ^ 32 in
    poll_keyboard ticks bytes t.kb >>= λ kb.
    end_quantum ticks t.cpu >>= λ cpu. ok (record { ticks = ticks; kb = kb; cpu = cpu })

-- The value that the call returns.
unfoldable pub sys_get_ticks : Clock → ℕ
sys_get_ticks t = t.ticks
