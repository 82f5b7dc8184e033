-- ===== src/Proc/Fork.antt =====
-- proc/proc.c: setting up processes, and `sys_fork`. A kernel stack is the words of its page; the
-- process control block at its top is the process's entry of the table.
pub mod Slots
pub mod Stack
pub mod Child
mod Tests
use create_an_os.Prelude.{
  ℕ, zero, suc, ◌+◌, ◌-◌, ◌*◌, ◌%◌, ◌^◌, List, [], ◌∷◌, Option, none, some, ◌==◌, if◌then◌else◌,
  replicate, Outcome, ok, ◌>>=◌, read, write,
}
use create_an_os.Sys.Frame.{Frame, frame_size, zero_frame}
use create_an_os.Sys.Selectors.{selector_kernel_code, selector_kernel_data}
use create_an_os.Io.Terminal.{store}
use create_an_os.Fs.Disk.{FileDesc, minus_one}
use create_an_os.Mem.Paging.{proc_max_cnt, page_table_start}
use create_an_os.Mem.Fault.{Space}
use create_an_os.Mem.Copy.{copy_words, sys_copy_pages, sys_create_proc_page_table}
use create_an_os.Proc.Table.{Pcb, empty, ready, is_empty}

-- The table, the current process and the words of memory, page tables and stacks among them.
pub record Kernel : Type 0 where
  pub procs : List Pcb
  pub current_proc : ℕ
  pub space : Space

abbrev pub proc_kstack_table_start : ℕ
proc_kstack_table_start = 0xc0500000

-- `sizeof(pcb_t)`
abbrev pub pcb_size : ℕ
pcb_size = frame_size + 11 * 4

-- `(pcb_t*)addr` of slot `pid`.
abbrev pub pcb_addr : ℕ → ℕ
pcb_addr pid = proc_kstack_table_start + 0x1000 * pid + 0x1000 - pcb_size

-- The table after `init_proc`: what the blocks hold besides their status is left as it was.
unfoldable pub init_proc : List Pcb → List Pcb
init_proc [] = []
init_proc (pcb ∷ procs) = record pcb { stat = empty } ∷ init_proc procs

-- The block of a process of the kernel that starts at `func`.
abbrev pub kernel_pcb : ℕ → ℕ → ℕ → Pcb
kernel_pcb pid func current_tty = record {
  regs = record zero_frame {
    cs = selector_kernel_code;
    ds = selector_kernel_data;
    es = selector_kernel_data;
    fs = selector_kernel_data;
    gs = selector_kernel_data;
    ss = selector_kernel_data;
    eip = func;
    eflags = 0x202;
  };
  kstktop = pcb_addr pid;
  fds = replicate 4 none;
  pde = page_table_start;
  tty = current_tty;
  stat = ready;
  father = 0;
  privilege = 0;
  pid = pid;
}

unfoldable pub sys_setup_kernel_process : ℕ → ℕ → ℕ → List Pcb → Outcome (List Pcb)
sys_setup_kernel_process pid func current_tty procs =
    write procs pid (kernel_pcb pid func current_tty)

unfoldable pub setup_init : ℕ → ℕ → Kernel → Outcome Kernel
setup_init init_start current_tty k =
    sys_setup_kernel_process 0 init_start current_tty k.procs >>= λ procs.
    sys_create_proc_page_table k.space >>= λ (pde, space). read procs 0 >>= λ pcb.
    write procs 0 (record pcb { pde = pde }) >>= λ procs'.
    ok (record k { procs = procs'; space = space })

-- `while(newpid < PROC_MAX_CNT && ...)`, from slot `i` on with `left` slots left.
unfoldable pub find_empty : ℕ → ℕ → List Pcb → Outcome (Option ℕ)
find_empty zero i procs = ok none
find_empty (suc left) i procs = read procs i >>= λ pcb.
    let next = find_empty left (i + 1) procs in if is_empty pcb.stat then ok (some i) else next

-- `memcpy(newesp, &stk, ...)`: the words of a frame from `a` on.
unfoldable pub store_words : ℕ → List ℕ → (ℕ → ℕ) → ℕ → ℕ
store_words a [] word = word
store_words a (w ∷ words) word = store_words (a + 4) words (store word a w)

-- The frame that the new process starts from, in the kernel at `syscall_resume`.
abbrev pub resume_frame : ℕ → List ℕ
resume_frame syscall_resume =
    selector_kernel_data ∷ selector_kernel_data ∷ selector_kernel_data ∷ selector_kernel_data ∷ 0
    ∷ 0 ∷ 0 ∷ 0 ∷ 0 ∷ 0 ∷ 0 ∷ 0 ∷ 0 ∷ 0 ∷ syscall_resume ∷ selector_kernel_code ∷ 0x202 ∷ []

-- `0x1000 * (newpid - current_proc)` as a `uint32_t`.
abbrev pub stack_distance : ℕ → ℕ → ℕ
stack_distance newpid me = (0x1000 * newpid + 2 ^ 32 - 0x1000 * me) % 2 ^ 32

-- The process's kernel stack, copied word by word.
abbrev pub copied_stack : ℕ → ℕ → Space → Space
copied_stack newpid me space = record space {
  frames = record space.frames {
    word =
        copy_words 1024 0 (proc_kstack_table_start + 0x1000 * newpid)
          (proc_kstack_table_start + 0x1000 * me) space.frames.word;
  };
}

-- What `sys_fork` writes to the stack of the new process: a frame below the copy of its caller's,
-- and in that one, for a process of the kernel, the frame pointer moved to the new stack.
unfoldable pub child_words : ℕ → ℕ → ℕ → ℕ → ℕ → (ℕ → ℕ) → ℕ → ℕ
child_words syscall_resume privilege new_param newesp distance word =
    let framed = store_words newesp (resume_frame syscall_resume) word in
    let ebp = new_param + 24 in
    if privilege == 0 then store framed ebp ((framed ebp + distance) % 2 ^ 32) else framed

-- The process `newpid` is a copy of the current one, whose frame lies at `param`. `files` is the table
-- of open files, which the code leaves as it is.
unfoldable pub fork_into : ℕ → ℕ → ℕ → Kernel → List FileDesc → Outcome (ℕ × Kernel × List FileDesc)
fork_into syscall_resume param newpid k files = read k.procs k.current_proc >>= λ mine.
    sys_copy_pages mine.pde (copied_stack newpid k.current_proc k.space) >>= λ (pde, space).
    let distance = stack_distance newpid k.current_proc in
    let new_param = (param + distance) % 2 ^ 32 in
    let newesp = (new_param + 2 ^ 32 - frame_size + 8) % 2 ^ 32 in
    write k.procs newpid
      (record mine { pid = newpid; father = k.current_proc; pde = pde; kstktop = newesp })
    >>= λ procs. ok (
      newpid,
      record k {
        procs = procs;
        space = record space {
          frames = record space.frames {
            word =
                child_words syscall_resume mine.privilege new_param newesp distance
                  space.frames.word;
          };
        };
      },
      files,
    )

unfoldable pub sys_fork : ℕ → ℕ → Kernel → List FileDesc → Outcome (ℕ × Kernel × List FileDesc)
sys_fork syscall_resume param k files = find_empty proc_max_cnt 0 k.procs >>= λ found. elim found [
  | none ↦ ok (minus_one, k, files)
  | some newpid ↦ fork_into syscall_resume param newpid k files
]
