-- ===== src/Proc/Exit.antt =====
-- proc/proc.c, `sys_exit`, up to its first interrupt: the files of the process are closed, its
-- children go to process 0, its memory is given back, and its father is told.
pub mod Files
pub mod Holders
pub mod Ended
mod Tests
use create_an_os.Prelude.{
  ℕ, zero, suc, ◌+◌, List, Option, none, some, Outcome, ok, ◌>>=◌, read, write,
}
use create_an_os.Fs.Disk.{Fs}
use create_an_os.Fs.File.{sys_do_close}
use create_an_os.Mem.Cleanup.{sys_cleanup_memory}
use create_an_os.Proc.Table.{Pcb}
use create_an_os.Proc.Wait.{adopt, hand_over}
use create_an_os.Proc.Fork.{Kernel}

-- `for(uint32_t i = 0;i < 4;++i)if(pcb->fds[i] != 0)sys_do_close(i);` from `i` on with `left` left.
unfoldable pub close_fds : ℕ → ℕ → Fs → Outcome Fs
close_fds zero i fs = ok fs
close_fds (suc left) i fs = read fs.fds i >>= λ entry.
    let next = close_fds left (i + 1) in
    let closed = sys_do_close i fs >>= λ (result, fs'). next fs' in
    elim entry [ none ↦ next fs | some k ↦ closed ]

-- The kernel and the file system; `fds` of the file system is what the current process has open.
unfoldable pub sys_exit : Kernel → Fs → Outcome (Kernel × Fs)
sys_exit k fs = read k.procs k.current_proc >>= λ pcb.
    close_fds 4 0 (record fs { fds = pcb.fds }) >>= λ fs'.
    write k.procs k.current_proc (record pcb { fds = fs'.fds }) >>= λ procs.
    sys_cleanup_memory pcb.pde k.space >>= λ space.
    hand_over k.current_proc pcb.father
      (record { procs = adopt k.current_proc 0 procs; word = space.frames.word })
    >>= λ m. ok (
      record k {
        procs = m.procs;
        space = record space { frames = record space.frames { word = m.word } };
      },
      fs',
    )
