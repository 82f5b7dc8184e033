-- ===== src/Sys/Syscall/Handler.antt =====
-- What a number in eax leads to.
use create_an_os.Prelude.{
  ℕ, zero, suc, ◌+◌, ◌%◌, ◌^◌, ◌≤◌, ◌<◌, ◌≡◌, refl, arith, List, [], ◌∷◌, none, some, length,
  get_or, take, ok, fault, ◌>>=◌, read, write, read-fault, replicate, write-ok, set, read-set_self,
  ap, ◌∙◌,
}
use create_an_os.Sys.Frame.{Frame, frame_size}
use create_an_os.Sys.Int.{IdtEntry, set_idt_entry}
use create_an_os.Sys.Int.Gates.{kernel_gate}
use create_an_os.Sys.Int.Alarm.{alarm_lem}
use create_an_os.Mem.Gdt.{Segmentation, set_tss}
use create_an_os.Io.Terminal.{Tty, Console}
use create_an_os.Video.Text.{cell, IsText}
use create_an_os.Fs.Directory.{c_string}
use create_an_os.Sys.Syscall.{
  SyscallFunc, CallTable, answered, refused, unregistered_call, init_syscall, register_syscall,
  syscall_handler,
}
use create_an_os.Sys.Syscall.Calls.{
  KernelCalls, init_proc_calls, init_fs_calls, init_tty_calls, boot_calls,
}
use create_an_os.Sys.User.Interface

-- With these registers the handler runs `func`, whatever else the state is, returns its result and
-- has the next interrupt start above the frame.
abbrev pub Reaches : {S : Type 0} → (S → Console) → CallTable S → Frame → SyscallFunc S → Type 0
Reaches {S} console table param func =
    (addr : ℕ) (s : S) (seg : Segmentation)
    → syscall_handler console table addr param s seg ≡ (
        func param s >>= λ (ret, s').
        ok (answered ret s' (set_tss ((addr + frame_size) % 2 ^ 32) seg)))

-- Each call of the user library, with any arguments, reaches the kernel's function of its name.
pub record Serves {S : Type 0} (console : S → Console) (k : KernelCalls S) (table : CallTable S)
    : Type 0 where
  pub opens :
      (name flag : ℕ) (regs : Frame)
      → Reaches console table (Interface.open_file name flag regs) k.open_call
  pub closes :
      (fd : ℕ) (regs : Frame) → Reaches console table (Interface.close fd regs) k.close_call
  pub writes :
      (fd bytes size : ℕ) (regs : Frame)
      → Reaches console table (Interface.write fd bytes size regs) k.write_call
  pub reads :
      (fd dest size : ℕ) (regs : Frame)
      → Reaches console table (Interface.read fd dest size regs) k.read_call
  pub unlinks :
      (name : ℕ) (regs : Frame) → Reaches console table (Interface.unlink name regs) k.unlink_call
  pub std_reads :
      (dest max_size : ℕ) (regs : Frame)
      → Reaches console table (Interface.std_read dest max_size regs) k.std_read_call
  pub std_writes :
      (bytes : ℕ) (regs : Frame)
      → Reaches console table (Interface.std_write bytes regs) k.std_write_call
  pub forks : (regs : Frame) → Reaches console table (Interface.fork regs) k.fork_call
  pub exits : (regs : Frame) → Reaches console table (Interface.exit regs) k.exit_call
  pub waits : (regs : Frame) → Reaches console table (Interface.wait regs) k.wait_call
  pub execs :
      (file argc argv : ℕ) (regs : Frame)
      → Reaches console table (Interface.exec file argc argv regs) k.exec_call
  pub getsizes :
      (file : ℕ) (regs : Frame) → Reaches console table (Interface.getsize file regs) k.getsize_call
  pub listdirs :
      (bytes : ℕ) (regs : Frame)
      → Reaches console table (Interface.listdir bytes regs) k.listdir_call

-- The table after the start.
abbrev full_table : {S : Type 0} → KernelCalls S → CallTable S
full_table k =
    none
    ∷ some k.open_call
    ∷ some k.close_call
    ∷ some k.write_call
    ∷ some k.read_call
    ∷ some k.unlink_call
    ∷ some k.std_read_call
    ∷ some k.std_write_call
    ∷ some k.fork_call
    ∷ some k.exit_call
    ∷ some k.wait_call
    ∷ some k.exec_call
    ∷ some k.getsize_call
    ∷ some k.listdir_call
    ∷ replicate 50 none

reach :
    {S : Type 0} (console : S → Console) (table : CallTable S) (param : Frame)
    (func : SyscallFunc S)
    → read table param.eax ≡ ok (some func)
    → Reaches console table param func
unfolding syscall_handler
reach console table param func e addr s seg = rw e refl

full_table-Serves :
    {S : Type 0} (console : S → Console) (k : KernelCalls S) → Serves console k (full_table k)
unfolding read Interface.open_file Interface.close Interface.write Interface.read Interface.unlink
    Interface.std_read Interface.std_write Interface.fork Interface.exit Interface.wait
    Interface.exec Interface.getsize Interface.listdir
full_table-Serves console k = record {
  opens = λ name flag regs.
      reach console (full_table k) (Interface.open_file name flag regs) k.open_call refl;
  closes = λ fd regs. reach console (full_table k) (Interface.close fd regs) k.close_call refl;
  writes = λ fd bytes size regs.
      reach console (full_table k) (Interface.write fd bytes size regs) k.write_call refl;
  reads = λ fd dest size regs.
      reach console (full_table k) (Interface.read fd dest size regs) k.read_call refl;
  unlinks =
      λ name regs. reach console (full_table k) (Interface.unlink name regs) k.unlink_call refl;
  std_reads = λ dest max_size regs.
      reach console (full_table k) (Interface.std_read dest max_size regs) k.std_read_call refl;
  std_writes = λ bytes regs.
      reach console (full_table k) (Interface.std_write bytes regs) k.std_write_call refl;
  forks = λ regs. reach console (full_table k) (Interface.fork regs) k.fork_call refl;
  exits = λ regs. reach console (full_table k) (Interface.exit regs) k.exit_call refl;
  waits = λ regs. reach console (full_table k) (Interface.wait regs) k.wait_call refl;
  execs = λ file argc argv regs.
      reach console (full_table k) (Interface.exec file argc argv regs) k.exec_call refl;
  getsizes =
      λ file regs. reach console (full_table k) (Interface.getsize file regs) k.getsize_call refl;
  listdirs =
      λ bytes regs. reach console (full_table k) (Interface.listdir bytes regs) k.listdir_call refl;
}

registered :
    {S : Type 0} (k : KernelCalls S)
    → (init_proc_calls k (replicate 64 none) >>= init_fs_calls k >>= init_tty_calls k)
      ≡ ok (full_table k)
unfolding init_proc_calls init_fs_calls init_tty_calls register_syscall write
registered k = refl

gate_set :
    {S : Type 0} (entry : ℕ) (idt : List IdtEntry)
    → length idt ≡ 256
    → init_syscall {S = S} entry idt ≡ ok (set idt 0x80 (kernel_gate entry), replicate 64 none)
unfolding init_syscall set_idt_entry
gate_set entry idt size = rw (write-ok idt 0x80 (kernel_gate entry) (omega arith))

-- The kernel's start fills the table: from a descriptor table of 256 gates it returns, sets the
-- gate of interrupt 0x80, and from then on every call of the user library, with any arguments and
-- in any state, runs the kernel's function of the same name, whatever these functions are, and
-- answers with its result.
pub boot_calls-Serves :
    {S : Type 0} (console : S → Console) (k : KernelCalls S) (entry : ℕ) (idt : List IdtEntry)
    → length idt ≡ 256
    → (idt' : List IdtEntry) × (table : CallTable S) × (boot_calls k entry idt ≡ ok (idt', table))
      × (read idt' 0x80 ≡ ok (kernel_gate entry))
      × Serves console k table
unfolding boot_calls
boot_calls-Serves console k entry idt size = (
  set idt 0x80 (kernel_gate entry),
  full_table k,
  rw (gate_set entry idt size, registered k),
  read-set_self idt 0x80 (kernel_gate entry) (omega arith),
  full_table-Serves console k,
)

-- The number of a call comes from the program and is not compared with the size of the table: with
-- a number from 64 on the kernel takes what lies behind the table for a function.
pub syscall_handler-fault :
    {S : Type 0} (console : S → Console) (table : CallTable S) (addr : ℕ) (param : Frame) (s : S)
    (seg : Segmentation)
    → length table ≡ 64
    → 64 ≤ param.eax
    → syscall_handler console table addr param s seg ≡ fault
unfolding syscall_handler
syscall_handler-fault console table addr param s seg size wild =
    rw (read-fault table param.eax (omega arith))

get_or-take : (xs : List ℕ) (n j : ℕ) → j < n → get_or (take n xs) j 0 ≡ get_or xs j 0
get_or-take xs zero j h = absurd (omega arith)
get_or-take [] (suc n) j h = refl
get_or-take (x ∷ xs) (suc n) zero h = refl
get_or-take (x ∷ xs) (suc n) (suc j) h = get_or-take xs n j (omega arith)

abbrev refusal : List ℕ
refusal = take 20 unregistered_call

refusal-IsText : IsText refusal
refusal-IsText = omega arith

c_string-refusal : c_string unregistered_call ≡ ok refusal
unfolding c_string
c_string-refusal = refl

-- A number in the table for which nothing is registered stops the kernel, while the terminal that
-- is shown is one of the first two: that terminal shows "Unregisterd syscall!" from its first cell
-- on.
pub syscall_handler-refuses :
    {S : Type 0} (console : S → Console) (table : CallTable S) (addr : ℕ) (param : Frame) (s : S)
    (seg : Segmentation) (tty : Tty)
    → read table param.eax ≡ ok none
    → read (console s).ttys (console s).current_tty ≡ ok tty
    → tty.addr ≤ 2000
    → (con : Console) × (syscall_handler console table addr param s seg ≡ ok (refused con))
      × ((j : ℕ) → j < 20 → con.memory (tty.addr + j) ≡ cell (get_or unregistered_call j 0) 0x24)
unfolding syscall_handler
syscall_handler-refuses console table addr param s seg tty missing shown a =
    let (con, e, cells) =
      alarm_lem unregistered_call refusal tty (console s) c_string-refusal refusal-IsText
        (omega arith) shown a in
    (
      con,
      rw (missing, e),
      λ j h. cells j h ∙ ap (λ c. cell c 0x24) (get_or-take unregistered_call 20 j h),
    )
