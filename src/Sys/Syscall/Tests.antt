-- ===== src/Sys/Syscall/Tests.antt =====
-- The table of system calls at concrete functions.
use create_an_os.Prelude.{
  ℕ, ◌+◌, ◌<◌, ◌≡◌, refl, arith, List, [], ◌∷◌, none, get_or, replicate, length-replicate, ok,
  fault, read,
}
use create_an_os.Sys.Frame.{zero_frame}
use create_an_os.Sys.Int.{IdtEntry, zero_gate}
use create_an_os.Sys.Int.Gates.{kernel_gate}
use create_an_os.Mem.Gdt.{Segmentation, zero_entry, zero_tss}
use create_an_os.Io.Terminal.{Tty, Console}
use create_an_os.Video.Text.{cell}
use create_an_os.Sys.Syscall.{SyscallFunc, CallTable, syscall_handler, refused, unregistered_call}
use create_an_os.Sys.Syscall.Calls.{KernelCalls, boot_calls}
use create_an_os.Sys.Syscall.Handler.{
  Serves, boot_calls-Serves, syscall_handler-fault, syscall_handler-refuses,
}

-- Functions that answer with a number of their own and the argument in ebx.
abbrev numbered : ℕ → SyscallFunc Console
numbered n param con = ok (n + param.ebx, con)

abbrev calls : KernelCalls Console
calls = record {
  open_call = numbered 100;
  close_call = numbered 200;
  write_call = numbered 300;
  read_call = numbered 400;
  unlink_call = numbered 500;
  std_read_call = numbered 600;
  std_write_call = numbered 700;
  fork_call = numbered 800;
  exit_call = numbered 900;
  wait_call = numbered 1000;
  exec_call = numbered 1100;
  getsize_call = numbered 1200;
  listdir_call = numbered 1300;
}

abbrev terminal : Tty
terminal = record { addr = 2000; pos = 5; input = []; head = 0; tail = 0; cnt = 0 }

abbrev shown : Console
shown = record { ttys = terminal ∷ []; current_tty = 0; memory = λ a. 0; crtc = λ a. 0 }

abbrev seg : Segmentation
seg = record {
  gdt = replicate 8 zero_entry;
  gdt_ptr = record { limit = 0; base = 0 };
  tss = zero_tss;
  task_register = 0;
}

abbrev empty_calls : CallTable Console
empty_calls = replicate 64 none

boot_calls-Serves_example :
    (idt' : List IdtEntry) × (table : CallTable Console) × (boot_calls calls 0xc0401000
        (replicate 256 zero_gate)
      ≡ ok (idt', table))
    × (read idt' 0x80 ≡ ok (kernel_gate 0xc0401000))
    × Serves (λ con. con) calls table
boot_calls-Serves_example =
    boot_calls-Serves (λ con. con) calls 0xc0401000 (replicate 256 zero_gate)
      (length-replicate 256 zero_gate)

syscall_handler-fault_example :
    syscall_handler (λ con. con) empty_calls 0xc0500f00 (record zero_frame { eax = 64 }) shown seg
    ≡ fault
syscall_handler-fault_example =
    syscall_handler-fault (λ con. con) empty_calls 0xc0500f00 (record zero_frame { eax = 64 }) shown
      seg refl (omega arith)

syscall_handler-refuses_example :
    (con : Console) × (syscall_handler
        (λ con. con)
        empty_calls
        0xc0500f00
        (record zero_frame { eax = 14 })
        shown
        seg
      ≡ ok (refused con))
    × ((j : ℕ) → j < 20 → con.memory (2000 + j) ≡ cell (get_or unregistered_call j 0) 0x24)
syscall_handler-refuses_example =
    syscall_handler-refuses (λ con. con) empty_calls 0xc0500f00 (record zero_frame { eax = 14 })
      shown seg terminal (unfold read in refl) (unfold read in refl) (omega arith)
