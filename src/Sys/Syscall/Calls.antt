-- ===== src/Sys/Syscall/Calls.antt =====
-- The numbers under which proc/proc.c, fs/fs.c and io/tty.c register their system calls, in the
-- order of the kernel's start, and what a user program's call reaches through them.
use create_an_os.Prelude.{ℕ, List, Outcome, ok, ◌>>=◌}
use create_an_os.Sys.Int.{IdtEntry}
use create_an_os.Sys.Syscall.{SyscallFunc, CallTable, init_syscall, register_syscall}

-- The kernel's functions.
pub record KernelCalls (S : Type 0) : Type 0 where
  pub open_call : SyscallFunc S
  pub close_call : SyscallFunc S
  pub write_call : SyscallFunc S
  pub read_call : SyscallFunc S
  pub unlink_call : SyscallFunc S
  pub std_read_call : SyscallFunc S
  pub std_write_call : SyscallFunc S
  pub fork_call : SyscallFunc S
  pub exit_call : SyscallFunc S
  pub wait_call : SyscallFunc S
  pub exec_call : SyscallFunc S
  pub getsize_call : SyscallFunc S
  pub listdir_call : SyscallFunc S

-- The calls of `register_syscall` in `init_proc`, in `init_fs` and in `init_ttys`.
unfoldable pub init_proc_calls : {S : Type 0} → KernelCalls S → CallTable S → Outcome (CallTable S)
init_proc_calls k table =
    register_syscall 8 k.fork_call table
    >>= register_syscall 9 k.exit_call
    >>= register_syscall 10 k.wait_call
    >>= register_syscall 11 k.exec_call

unfoldable pub init_fs_calls : {S : Type 0} → KernelCalls S → CallTable S → Outcome (CallTable S)
init_fs_calls k table =
    register_syscall 1 k.open_call table
    >>= register_syscall 2 k.close_call
    >>= register_syscall 3 k.write_call
    >>= register_syscall 4 k.read_call
    >>= register_syscall 5 k.unlink_call
    >>= register_syscall 12 k.getsize_call
    >>= register_syscall 13 k.listdir_call

unfoldable pub init_tty_calls : {S : Type 0} → KernelCalls S → CallTable S → Outcome (CallTable S)
init_tty_calls k table =
    register_syscall 6 k.std_read_call table >>= register_syscall 7 k.std_write_call

-- The calls of `main` that set up system calls, in their order.
unfoldable pub boot_calls :
    {S : Type 0} → KernelCalls S → ℕ → List IdtEntry → Outcome (List IdtEntry × CallTable S)
boot_calls k entry idt = init_syscall entry idt >>= λ (idt', table).
    (init_proc_calls k table >>= init_fs_calls k >>= init_tty_calls k) >>= λ table'.
    ok (idt', table')
