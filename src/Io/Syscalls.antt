-- ===== src/Io/Syscalls.antt =====
-- io/tty.c: the two system calls on terminals. `sys_std_read` is cut at its interrupt, where other
-- processes run until Enter makes its own ready again.
use create_an_os.Prelude.{ℕ, List, Outcome, ok, ◌>>=◌, read, write}
use create_an_os.Io.Terminal.{Console}
use create_an_os.Io.Tty.{std_read_line}
use create_an_os.Video.{sys_puts}
use create_an_os.Proc.Table.{Pcb, waiting_input}

-- Up to `int $0x20`.
unfoldable pub sys_std_read_begin : ℕ → List Pcb → Outcome (List Pcb)
sys_std_read_begin current_proc procs = do
  pcb ← read procs current_proc
  write procs current_proc (record pcb { stat = waiting_input })

-- From there on.
unfoldable pub sys_std_read_resume : ℕ → ℕ → List Pcb → Console → Outcome (List ℕ × Console)
sys_std_read_resume current_proc max_size procs con = do
  pcb ← read procs current_proc
  tty ← read con.ttys pcb.tty
  (line, tty') ← std_read_line max_size tty
  ttys ← write con.ttys pcb.tty tty'
  ok (line, record con { ttys = ttys })

-- The string up to its terminator, on the terminal of the process.
unfoldable pub sys_std_write : ℕ → List ℕ → List Pcb → Console → Outcome Console
sys_std_write current_proc s procs con = do pcb ← read procs current_proc; sys_puts pcb.tty s con
