-- ===== src/Proc/Exit/Tests.antt =====
-- The end of a process in a concrete table.
use create_an_os.Prelude.{
  ℕ, ◌+◌, ◌*◌, ◌≡◌, refl, arith, List, [], ◌∷◌, Option, none, some, replicate, ◌==◌, if◌then◌else◌,
  ok, fault, read, length-replicate,
}
use create_an_os.Sys.Frame.{zero_frame}
use create_an_os.Fs.Disk.{Fs, FileDesc}
use create_an_os.Mem.Alloc.{map_bytes, init_memory}
use create_an_os.Mem.Paging.{page_phy_to_vir}
use create_an_os.Mem.Fault.{Space}
use create_an_os.Mem.Cleanup.Bare.{sys_cleanup_memory-IsBare}
use create_an_os.Proc.Table.{Pcb, Status, ready, waiting, hanging}
use create_an_os.Proc.Fork.{Kernel}
use create_an_os.Proc.Exit.{sys_exit}
use create_an_os.Proc.Exit.Ended.{IsEnded, sys_exit-IsEnded, sys_exit-fault}

abbrev process : Status → ℕ → ℕ → List (Option ℕ) → Pcb
process s pid father fds = record {
  regs = zero_frame;
  kstktop = 0xc0500f00 + 0x1000 * pid;
  fds = fds;
  pde = 0xc0523000;
  tty = 0;
  stat = s;
  father = father;
  privilege = 3;
  pid = pid;
}

abbrev no_files : List (Option ℕ)
no_files = replicate 4 none

-- Process 1 has a file open, a father that waits and a child.
abbrev mine : Pcb
mine = process ready 1 0 (none ∷ some 3 ∷ none ∷ none ∷ [])

abbrev space : (ℕ → ℕ) → Space
space word = record {
  frames = record { page_bitmap = 0b11111 ∷ replicate 27 0; word = word };
  memory = init_memory;
  copies = (0, 0) ∷ [];
  pages = λ p. [];
}

abbrev kernel : (ℕ → ℕ) → Kernel
kernel word = record {
  procs =
      process waiting 0 0 no_files
      ∷ mine
      ∷ process hanging 2 1 no_files
      ∷ replicate 29 (process hanging 0 0 no_files);
  current_proc = 1;
  space = space word;
}

abbrev descriptor : FileDesc
descriptor = record { inode = some 5; rwpointer = 100; rwcount = 1 }

abbrev fs : List (Option ℕ) → Fs
fs fds = record {
  meta = record {
    magic = 0xbaba;
    name = [];
    inode_count = 64;
    sector_count = 512;
    sector_map_start = 32;
    inode_map_start = 33;
    inode_table_start = 34;
    data_start = 50;
  };
  file_desc_table = replicate 64 descriptor;
  inode_table = [];
  inode_map = [];
  disk = λ s. [];
  fds = fds;
}

sys_exit-IsEnded_example :
    (k' : Kernel) × (fs' : Fs) × (sys_exit (kernel (λ a. 0)) (fs no_files) ≡ ok (k', fs'))
    × IsEnded 1 mine
        (process waiting 0 0 no_files)
        (space (λ a. 0))
        (fs no_files)
        (kernel (λ a. 0))
        k'
        fs'
sys_exit-IsEnded_example =
    sys_exit-IsEnded 1 mine (process waiting 0 0 no_files) (space (λ a. 0)) (kernel (λ a. 0))
      (fs no_files) refl (unfold read in refl) (unfold read in refl) (λ e. omega arith) refl
      (omega arith) (sys_cleanup_memory-IsBare 0xc0523000 (space (λ a. 0)) (λ k low high. refl))

-- A table with page 0x300000 in its entry 0.
abbrev one_page : ℕ → ℕ
one_page a = if a == 0xc0523000 then 0x224007 else if a == 0xc0524000 then 0x300007 else 0

sys_exit-fault_example : sys_exit (kernel one_page) (fs no_files) ≡ fault
unfolding page_phy_to_vir init_memory
sys_exit-fault_example =
    sys_exit-fault 0 0 0 mine (kernel one_page) (fs no_files) (unfold read in refl) refl
      (omega arith) (omega arith) (record { here = refl; before = λ j h. absurd (omega arith) })
      (omega arith) (record { here = refl; before = λ j h. absurd (omega arith) })
      (record {
        address = refl;
        in_range = omega arith;
        bitmap = length-replicate {A = ℕ} map_bytes 0;
        uncounted = ((λ e. omega arith), tt);
      })

abbrev shared_file : Fs
shared_file = fs mine.fds
