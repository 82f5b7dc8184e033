-- ===== src/Sys/Syscall.antt =====
-- sys/syscall.c: the table of system calls and the kernel's side of `int $0x80`. A call runs on a
-- state of the kernel that shows a console, and returns a word.
pub mod Calls
pub mod Handler
mod Tests
use create_an_os.Prelude.{
  ℕ, ◌+◌, ◌%◌, ◌^◌, List, [], ◌∷◌, Option, none, some, replicate, Outcome, ok, ◌>>=◌, read, write,
}
use create_an_os.Sys.Frame.{Frame, frame_size}
use create_an_os.Sys.Selectors.{selector_kernel_code}
use create_an_os.Sys.Int.{IdtEntry, set_idt_entry, alarm}
use create_an_os.Mem.Gdt.{Segmentation, set_tss}
use create_an_os.Io.Terminal.{Console}

-- `syscall_func_t`, for a kernel with the state `S`.
abbrev pub SyscallFunc : Type 0 → Type 0
SyscallFunc S = Frame → S → Outcome (ℕ × S)

-- `static syscall_func_t syscall_func[64]`: `none` is a null pointer.
abbrev pub CallTable : Type 0 → Type 0
CallTable S = List (Option (SyscallFunc S))

-- The gate of interrupt 0x80, which leads to the assembly routine at `entry`, and an empty table.
unfoldable pub init_syscall :
    {S : Type 0} → ℕ → List IdtEntry → Outcome (List IdtEntry × CallTable S)
init_syscall entry idt = do
  idt ← set_idt_entry 0x80 entry selector_kernel_code 0b11101110 idt
  ok (idt, replicate 64 none)

unfoldable pub register_syscall :
    {S : Type 0} → ℕ → SyscallFunc S → CallTable S → Outcome (CallTable S)
register_syscall num func table = write table num (some func)

-- `char str[] = "Unregisterd syscall!"`
abbrev pub unregistered_call : List ℕ
unregistered_call =
    b'U' ∷ b'n' ∷ b'r' ∷ b'e' ∷ b'g' ∷ b'i' ∷ b's' ∷ b't' ∷ b'e' ∷ b'r' ∷ b'd' ∷ b' ' ∷ b's' ∷ b'y'
    ∷ b's' ∷ b'c' ∷ b'a' ∷ b'l' ∷ b'l' ∷ b'!' ∷ 0 ∷ []

-- The call returned its result, with the stack for the next interrupt set; or the kernel stands
-- still with a message on the console.
pub data Answer (S : Type 0) : Type 0 where
  answered : ℕ → S → Segmentation → Answer S
  refused : Console → Answer S

-- `param_addr` is where the frame lies on the kernel's stack.
unfoldable pub syscall_handler :
    {S : Type 0} → (S → Console) → CallTable S → ℕ → Frame → S → Segmentation → Outcome (Answer S)
syscall_handler console table param_addr param s seg = read table param.eax >>= λ func. elim func [
  | none ↦ alarm unregistered_call (console s) >>= λ con. ok (refused con)
  | some call ↦ call param s >>= λ (ret, s').
      ok (answered ret s' (set_tss ((param_addr + frame_size) % 2 ^ 32) seg))
]
