-- ===== src/Proc/Table.antt =====
-- proc/proc.h: process control blocks and their table.
use create_an_os.Prelude.{ℕ, List, Option, Bool, true, false}
use create_an_os.Sys.Frame.{Frame}

-- `enum STATUS`
pub data Status : Type 0 where
  empty ready waiting_input waiting hanging dead : Status

-- `file_desc_t* fds[4]`: an index into the table of open files, or a null pointer.
pub record Pcb : Type 0 where
  pub regs : Frame
  pub kstktop : ℕ
  pub fds : List (Option ℕ)
  pub pde : ℕ
  pub tty : ℕ
  pub stat : Status
  pub father : ℕ
  pub privilege : ℕ
  pub pid : ℕ

abbrev pub is_ready : Status → Bool
is_ready ready = true
is_ready _ = false

abbrev pub is_dead : Status → Bool
is_dead dead = true
is_dead _ = false

abbrev pub is_hanging : Status → Bool
is_hanging hanging = true
is_hanging _ = false

abbrev pub is_waiting_input : Status → Bool
is_waiting_input waiting_input = true
is_waiting_input _ = false

abbrev pub is_waiting : Status → Bool
is_waiting waiting = true
is_waiting _ = false

abbrev pub is_empty : Status → Bool
is_empty empty = true
is_empty _ = false
