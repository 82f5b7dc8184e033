-- ===== src/Proc/Exec.antt =====
-- proc/proc.c, `sys_exec`: another program in a process. Memory is its bytes by their 32-bit
-- address, as the process sees them, the buffer for the file among them; `user_stack`, an array of the
-- kernel's stack, is a list, and what it holds at first is an argument. The arguments are strings
-- without their terminators.
pub mod Arguments
pub mod Block
pub mod Loading
mod Tests
use create_an_os.Prelude.{
  ℕ, zero, suc, ◌+◌, ◌-◌, ◌*◌, ◌/◌, ◌%◌, ◌^◌, bit_and, List, [], ◌∷◌, ◌++◌, Option, none, some,
  ◌&&◌, leb, ltb, take, ◌==◌, if◌then◌else◌, length, get_or, Outcome, ok, hang, fault, ◌>>=◌, read,
  write,
}
use create_an_os.Sys.Frame.{Frame}
use create_an_os.Sys.Selectors.{selector_user_code, selector_user_data}
use create_an_os.Io.Terminal.{store}
use create_an_os.Fs.Disk.{Fs, minus_one, words_bytes}
use create_an_os.Fs.File.{copy_into, sys_do_read, sys_do_close}
use create_an_os.Fs.Directory.{sys_do_getsize}
use create_an_os.Fs.Open.{sys_do_open}
use create_an_os.Mem.Cleanup.{sys_cleanup_memory}
use create_an_os.Proc.Table.{Pcb}
use create_an_os.Proc.Fork.{Kernel, pcb_addr}

-- Where `user_stack` begins in the memory of the new program: it ends at 0xb0000000.
abbrev pub stack_base : ℕ
stack_base = 0xb0000000 - 0x100

-- `nargv[i] = ...` in an array of 16.
unfoldable pub put_pointer : ℕ → List ℕ → Outcome (List ℕ)
put_pointer addr nargv = if ltb (length nargv) 16 then ok (nargv ++ (addr ∷ [])) else fault

-- The loop over the arguments, with `p` and the pointers so far.
unfoldable pub push_args : List (List ℕ) → ℕ → List ℕ → List ℕ → Outcome (ℕ × List ℕ × List ℕ)
push_args [] p stack nargv = ok (p, stack, nargv)
push_args (arg ∷ args) p stack nargv =
    let q = p - (length arg + 1) in
    let next = push_args args q in
    let pushed : Outcome (ℕ × List ℕ × List ℕ) = copy_into q (arg ++ (0 ∷ [])) stack >>= λ stack'.
    put_pointer (stack_base + q) nargv >>= λ nargv'. next stack' nargv' in
    if ltb p (length arg + 1) then hang else pushed

-- `while(p & 0b11)--p;`: three rounds are enough.
unfoldable pub align : ℕ → ℕ → ℕ
align zero p = p
align (suc fuel) p = let rest = align fuel (p - 1) in if bit_and p 0b11 == 0 then p else rest

-- The array of 256 bytes with the strings and the array of pointers, and its index `p`.
unfoldable pub argument_block : List (List ℕ) → List ℕ → Outcome (ℕ × List ℕ)
argument_block args stack = push_args args 0xff stack [] >>= λ (top, stack', nargv).
    let p = align 3 top in
    let filled : Outcome (ℕ × List ℕ) =
      copy_into (p - length args * 4) (words_bytes nargv) stack' >>= λ stack''.
      ok (p - length args * 4, stack'') in
    if ltb p (length args * 4) then hang else filled

-- `EXEC_BUFFER`
abbrev pub exec_buffer : ℕ
exec_buffer = 0xc0420000

-- Numbers in memory.
abbrev pub byte_at : (ℕ → ℕ) → ℕ → ℕ
byte_at memory at = memory (at % 2 ^ 32)

abbrev pub half_at : (ℕ → ℕ) → ℕ → ℕ
half_at memory at = byte_at memory at + byte_at memory (at + 1) * 2 ^ 8

abbrev pub word_at : (ℕ → ℕ) → ℕ → ℕ
word_at memory at = half_at memory at + half_at memory (at + 2) * 2 ^ 16

-- The loop of a `memcpy` of `left` bytes, from byte `i` on.
unfoldable pub copy_bytes : ℕ → ℕ → ℕ → ℕ → (ℕ → ℕ) → ℕ → ℕ
copy_bytes zero i dest src memory = memory
copy_bytes (suc left) i dest src memory =
    copy_bytes left (i + 1) dest src (store memory ((dest + i) % 2 ^ 32) (byte_at memory (src + i)))

-- `Elf32_Phdr`: the fields that are read, by their offsets.
abbrev pub p_type : (ℕ → ℕ) → ℕ → ℕ
p_type memory header = word_at memory header

abbrev pub p_offset : (ℕ → ℕ) → ℕ → ℕ
p_offset memory header = word_at memory (header + 4)

abbrev pub p_vaddr : (ℕ → ℕ) → ℕ → ℕ
p_vaddr memory header = word_at memory (header + 8)

abbrev pub p_filesz : (ℕ → ℕ) → ℕ → ℕ
p_filesz memory header = word_at memory (header + 16)

-- `Elf32_Ehdr` at `EXEC_BUFFER`, the same.
abbrev pub e_entry : (ℕ → ℕ) → ℕ
e_entry memory = word_at memory (exec_buffer + 24)

abbrev pub e_phoff : (ℕ → ℕ) → ℕ
e_phoff memory = word_at memory (exec_buffer + 28)

abbrev pub e_phentsize : (ℕ → ℕ) → ℕ
e_phentsize memory = half_at memory (exec_buffer + 42)

abbrev pub e_phnum : (ℕ → ℕ) → ℕ
e_phnum memory = half_at memory (exec_buffer + 44)

-- `(Elf32_Phdr*)(EXEC_BUFFER + e_phoff + i * e_phentsize)`
abbrev pub header_at : (ℕ → ℕ) → ℕ → ℕ
header_at memory i = (exec_buffer + (e_phoff memory + i * e_phentsize memory)) % 2 ^ 32

-- The body of the loop over the program headers.
unfoldable pub load_segment : ℕ → (ℕ → ℕ) → ℕ → ℕ
load_segment i memory =
    let header = header_at memory i in
    let loaded =
      copy_bytes (p_filesz memory header) 0 (p_vaddr memory header)
        (exec_buffer + p_offset memory header) memory in
    if p_type memory header == 1 then loaded else memory

-- The loop, which reads `e_phnum` in each round, from header `i` on and on fuel: the number is 16 bits
-- wide, so that 2^16 rounds are enough.
unfoldable pub load_segments : ℕ → ℕ → (ℕ → ℕ) → Outcome (ℕ → ℕ)
load_segments zero i memory = hang
load_segments (suc rounds) i memory =
    let next = load_segments rounds (i + 1) (load_segment i memory) in
    if ltb i (e_phnum memory) then next else ok memory

-- What `sys_do_read` leaves in the buffer, in front of what was there.
abbrev pub with_bytes : List ℕ → (ℕ → ℕ) → ℕ → ℕ
with_bytes bytes memory a =
    if leb exec_buffer a && ltb a (exec_buffer + length bytes)
    then get_or bytes (a - exec_buffer) 0
    else memory a

-- A `memcpy` of an array to `a`.
unfoldable pub put_bytes : ℕ → List ℕ → (ℕ → ℕ) → ℕ → ℕ
put_bytes a [] memory = memory
put_bytes a (b ∷ bytes) memory = put_bytes (a + 1) bytes (store memory a b)

-- The registers and the state that a new program starts with.
abbrev pub started : ℕ → ℕ → ℕ → ℕ → Pcb → Pcb
started esp argc entry pid pcb = record pcb {
  regs = record pcb.regs {
    ss = selector_user_data;
    esp = esp;
    ecx = argc;
    eip = entry;
    cs = selector_user_code;
    ds = selector_user_data;
    es = selector_user_data;
    fs = selector_user_data;
    gs = selector_user_data;
    eflags = 0x3202;
  };
  kstktop = pcb_addr pid;
  privilege = 3;
}

-- The kernel, the file system with the descriptors of the current process, and memory.
pub record Program : Type 0 where
  pub kernel : Kernel
  pub fs : Fs
  pub user : ℕ → ℕ

-- From `sys_cleanup_memory` on: the file is read and loaded, and the process starts anew.
unfoldable pub start_program : List ℕ → ℕ → ℕ → ℕ → List ℕ → Program → Outcome Program
start_program file size argc p stack m =
    let me = m.kernel.current_proc in
    read m.kernel.procs me >>= λ pcb. sys_cleanup_memory pcb.pde m.kernel.space >>= λ space.
    sys_do_open file 2 m.fs >>= λ (fp, fs₁). sys_do_read fp size fs₁ >>= λ bytes.
    sys_do_close fp fs₁ >>= λ (result, fs₂).
    let elf : ℕ → ℕ = elim bytes [ none ↦ m.user | some b ↦ with_bytes b m.user ] in
    load_segments (2 ^ 16) 0 elf >>= λ loaded.
    let user = put_bytes stack_base (take 0x100 stack) loaded in
    write m.kernel.procs me (started (stack_base + p) argc (e_entry user) me pcb) >>= λ procs.
    ok (record { kernel = record m.kernel { procs = procs; space = space }; fs = fs₂; user = user })

-- `none` where the call returns -1; else it does not return, and the new program starts. `file` is an
-- array of 16, `argc` is the number of arguments.
unfoldable pub sys_exec : List ℕ → List (List ℕ) → List ℕ → Program → Outcome (Option Program)
sys_exec file args stack m =
    let found : Outcome (Option Program) = sys_do_getsize file m.fs >>= λ size.
    let run : Outcome (Option Program) = argument_block args stack >>= λ (p, stack').
    start_program file size (length args) p stack' m >>= λ m'. ok (some m') in
    if size == minus_one
    then ok none
    else if ltb 0x80000 size && ltb size (2 ^ 31)
    then hang
    else run in
    if ltb (length file) 16 then found else fault
