-- ===== src/Proc/Fork/Tests.antt =====
-- A fork of the kernel's init_process process.
use create_an_os.Prelude.{
  ℕ, zero, suc, ◌+◌, ◌*◌, ◌<◌, ◌≡◌, refl, sym, ap, ◌∙◌, inr, bit_and, arith, [], ◌∷◌, false, List,
  none, some, take, ◌++◌, replicate, ok, read, write, ok-injective,
}
use create_an_os.Common.Bitmap.{byte_bit}
use create_an_os.Common.Bitmap.Laws.{IsBytes-replicate, bit_at}
use create_an_os.Fs.Disk.{FileDesc, Fs, minus_one}
use create_an_os.Fs.File.{sys_do_close, sys_do_read, sys_do_write}
use create_an_os.Proc.Exit.Holders.{seen_by, sys_fork-cuts_off}
use create_an_os.Mem.Alloc.{init_memory}
use create_an_os.Mem.Paging.{page_table_start}
use create_an_os.Mem.Paging.FrameAlloc.{IsValid, IsFree}
use create_an_os.Mem.Fault.{Space}
use create_an_os.Mem.Copy.{sys_copy_pages}
use create_an_os.Mem.Copy.Table.{copy_words_lem}
use create_an_os.Mem.Copy.Bare.{IsBare, sys_copy_pages-IsBare}
use create_an_os.Proc.Table.{Pcb, empty, is_empty}
use create_an_os.Proc.Fork.{
  Kernel, kernel_pcb, init_proc, sys_setup_kernel_process, copied_stack, sys_fork,
}
use create_an_os.Proc.Fork.Slots.{IsLowestEmpty}
use create_an_os.Proc.Fork.Stack.{stack_word}
use create_an_os.Proc.Fork.Child.{IsFrame, sys_fork-full}

-- Process 0 runs, the other 31 slots are empty.
abbrev init_process : Pcb
init_process = kernel_pcb 0 0xc0401000 0

abbrev unused : Pcb
unused = record init_process { stat = empty }

abbrev space : Space
space = record {
  frames = record { page_bitmap = 0b111 ∷ replicate 27 0; word = λ a. 0 };
  memory = init_memory;
  copies = replicate 128 (0, 0);
  pages = λ p. [];
}

abbrev kernel : Kernel
kernel = record { procs = init_process ∷ replicate 31 unused; current_proc = 0; space = space }

set_up :
    sys_setup_kernel_process 0 0xc0401000 0 (init_proc (replicate 32 init_process))
    ≡ ok kernel.procs
unfolding sys_setup_kernel_process init_proc write
set_up = refl

space_IsValid : IsValid (copied_stack 1 0 space).frames
space_IsValid = record { storage = refl; bytes = (omega arith, IsBytes-replicate 27) }

third-IsFree : IsFree (copied_stack 1 0 space).frames 3
unfolding bit_at byte_bit
third-IsFree = refl

lower_used : (k : ℕ) → k < 3 → ¬ IsFree (copied_stack 1 0 space).frames k
unfolding bit_at byte_bit
lower_used zero h = λ e. omega arith
lower_used (suc zero) h = λ e. omega arith
lower_used (suc (suc zero)) h = λ e. omega arith
lower_used (suc (suc (suc k))) h = absurd (omega arith)

directory-IsBare : IsBare 768 page_table_start 0 (copied_stack 1 0 space).frames.word
directory-IsBare k low high =
    ap (λ w. bit_and w 1)
      ((copy_words_lem 1024 0 0xc0501000 0xc0500000 (λ a. 0) (inr (omega arith))).1
        (page_table_start + 4 * k) (inr (omega arith)))

pages_copied :
    (pde : ℕ) × (s' : Space) × (sys_copy_pages init_process.pde (copied_stack 1 0 space)
      ≡ ok (pde, s'))
    × ((b : ℕ) → b < page_table_start → s'.frames.word b ≡ (copied_stack 1 0 space).frames.word b)
pages_copied =
    sys_copy_pages-IsBare page_table_start 3 (copied_stack 1 0 space) space_IsValid (omega arith)
      third-IsFree lower_used directory-IsBare

slot_1-IsLowestEmpty :
    (p : Pcb) → is_empty p.stat ≡ false → IsLowestEmpty 0 1 (p ∷ replicate 31 unused)
unfolding read
slot_1-IsLowestEmpty p busy = record {
  pcb = unused;
  here = refl;
  free = refl;
  before = λ e pcb low below at.
      let zeroth : e ≡ 0 = omega arith in
      let here = ap (read (p ∷ replicate 31 unused)) (sym zeroth) ∙ at in
      ap (λ (q : Pcb). is_empty q.stat) (sym (ok-injective p pcb here)) ∙ busy;
}

caller-IsFrame : IsFrame 0xc0500f00 0
caller-IsFrame = omega arith

abbrev files : List FileDesc
files = replicate 64 (record { inode = none; rwpointer = 0; rwcount = 0 })

-- Process 0 with file 5 open, by entry 2 of the table.
abbrev opener : Pcb
opener = record init_process { fds = some 2 ∷ replicate 3 none }

abbrev one_open : Kernel
one_open = record kernel { procs = opener ∷ replicate 31 unused }

abbrev once : FileDesc
once = record { inode = some 5; rwpointer = 0; rwcount = 1 }

abbrev system : Fs
system = record {
  meta = record {
    magic = 0xbaba;
    name = replicate 8 0;
    inode_count = 64;
    sector_count = 512;
    sector_map_start = 32;
    inode_map_start = 33;
    inode_table_start = 34;
    data_start = 50;
  };
  file_desc_table = take 2 files ++ (once ∷ take 61 files);
  inode_table = [];
  inode_map = [];
  disk = λ sector. [];
  fds = [];
}

sys_fork-cuts_off_example :
    (k' : Kernel) × (table : List FileDesc) × (child : Pcb) × (father : Pcb) × (fs' : Fs)
    × (sys_fork 0xc0402000 0xc0500f00 one_open system.file_desc_table ≡ ok (1, k', table))
    × (read k'.procs 1 ≡ ok child)
    × (read k'.procs 0 ≡ ok father)
    × (sys_do_close 0 (seen_by child.fds table system) ≡ ok (0, fs'))
    × (sys_do_read 0 9 (seen_by father.fds fs'.file_desc_table fs') ≡ ok none)
    × (sys_do_write 0 (7 ∷ []) 9 (seen_by father.fds fs'.file_desc_table fs')
        ≡ ok (minus_one, seen_by father.fds fs'.file_desc_table fs'))
sys_fork-cuts_off_example =
    sys_fork-cuts_off 0xc0402000 0xc0500f00 1 pages_copied.0 0 2 5 9 (7 ∷ []) opener pages_copied.1
      one_open once system (omega arith) (λ e. omega arith) refl (slot_1-IsLowestEmpty opener refl)
      caller-IsFrame (unfold read in refl) pages_copied.2
      (λ j h. pages_copied.3 (stack_word 1 j) (omega arith)) (omega arith) (unfold read in refl)
      (unfold read in refl) refl refl

abbrev full : Kernel
full = record kernel { procs = replicate 32 init_process }

all_used :
    (n j : ℕ) (pcb : Pcb) → read (replicate n init_process) j ≡ ok pcb → is_empty pcb.stat ≡ false
unfolding read
all_used zero j pcb at = absurd (cc)
all_used (suc n) zero pcb at =
    ap (λ (q : Pcb). is_empty q.stat) (sym (ok-injective init_process pcb at))
all_used (suc n) (suc j) pcb at = all_used n j pcb at

sys_fork-full_example : sys_fork 0xc0402000 0xc0500f00 full files ≡ ok (minus_one, full, files)
sys_fork-full_example = sys_fork-full 0xc0402000 0xc0500f00 full files refl (all_used 32)
