-- ===== src/Proc/Exit/Holders.antt =====
-- A file that is open when a process forks: it has two holders then, but is counted once.
use create_an_os.Prelude.{
  ℕ, ◌<◌, ◌≡◌, ◌≢◌, sym, ap, ◌∙◌, List, Option, none, some, length, ok, read,
}
use mathlib.Core.Path.{subst}
use create_an_os.Fs.Disk.{Fs, FileDesc, minus_one}
use create_an_os.Fs.File.{sys_do_close, sys_do_read, sys_do_write}
use create_an_os.Mem.Fault.{Space}
use create_an_os.Mem.Copy.{sys_copy_pages}
use create_an_os.Proc.Table.{Pcb}
use create_an_os.Proc.Fork.{Kernel, copied_stack, sys_fork}
use create_an_os.Proc.Fork.Slots.{IsLowestEmpty}
use create_an_os.Proc.Fork.Stack.{stack_word}
use create_an_os.Proc.Fork.Child.{IsFrame, sys_fork-IsForked}
use create_an_os.Proc.Exit.Files.{sys_do_close-cuts_off}

-- The file system as a process sees it whose descriptors are `fds`, with the table `files`.
abbrev pub seen_by : List (Option ℕ) → List FileDesc → Fs → Fs
seen_by fds files fs = record fs { fds = fds; file_desc_table = files }

-- A process that has a file open, which is counted once as opening it does, forks: the table has 32
-- slots, `newpid` is the first that is empty and not the caller's, the caller's frame lies in the
-- caller's kernel stack at a multiple of four, and copying the pages returns and leaves the stack of
-- the new process as it is. The fork returns `newpid`. The new process holds the file too, and
-- closes it: that succeeds, and now the old process, whose own descriptors are as before, can
-- neither read from the file nor write to it.
pub sys_fork-cuts_off :
    (resume param newpid pde fd entry n size : ℕ) (bytes : List ℕ) (mine : Pcb) (space : Space)
    (k : Kernel) (desc : FileDesc) (fs : Fs)
    → newpid < 32
    → newpid ≢ k.current_proc
    → length k.procs ≡ 32
    → IsLowestEmpty 0 newpid k.procs
    → IsFrame param k.current_proc
    → read k.procs k.current_proc ≡ ok mine
    → sys_copy_pages mine.pde (copied_stack newpid k.current_proc k.space) ≡ ok (pde, space)
    → ((j : ℕ)
        → j < 1024
        → space.frames.word (stack_word newpid j)
          ≡ (copied_stack newpid k.current_proc k.space).frames.word (stack_word newpid j))
    → fd < 4
    → read mine.fds fd ≡ ok (some entry)
    → read fs.file_desc_table entry ≡ ok desc
    → desc.inode ≡ some n
    → desc.rwcount ≡ 1
    → (k' : Kernel) × (files : List FileDesc) × (child : Pcb) × (father : Pcb) × (fs' : Fs)
      × (sys_fork resume param k fs.file_desc_table ≡ ok (newpid, k', files))
      × (read k'.procs newpid ≡ ok child)
      × (read k'.procs k.current_proc ≡ ok father)
      × (sys_do_close fd (seen_by child.fds files fs) ≡ ok (0, fs'))
      × (sys_do_read fd size (seen_by father.fds fs'.file_desc_table fs') ≡ ok none)
      × (sys_do_write fd bytes size (seen_by father.fds fs'.file_desc_table fs')
          ≡ ok (minus_one, seen_by father.fds fs'.file_desc_table fs'))
sys_fork-cuts_off resume param newpid pde fd entry n size bytes mine space k desc fs h ne procs v f
      own e kept low held found file once =
    let (k', forks, r) =
      sys_fork-IsForked resume param newpid pde mine space k fs.file_desc_table h ne procs v f own e
        kept in
    let same : r.child.fds ≡ mine.fds = ap (λ (p : Pcb). p.fds) r.copy in
    let holds : read r.child.fds fd ≡ ok (some entry) = ap (λ t. read t fd) same ∙ held in
    let seen : Fs = seen_by r.child.fds fs.file_desc_table fs in
    let (fs', closes, no_read, no_write) =
      sys_do_close-cuts_off fd entry n size bytes desc seen low holds found file once in
    let view : List (Option ℕ) → Fs = λ t. seen_by t fs'.file_desc_table fs' in
    (
      k',
      fs.file_desc_table,
      r.child,
      mine,
      fs',
      forks,
      r.entry,
      r.others k.current_proc ne ∙ own,
      closes,
      ap (λ t. sys_do_read fd size (view t)) (sym same) ∙ no_read,
      subst (λ t. sys_do_write fd bytes size (view t) ≡ ok (minus_one, view t)) same no_write,
    )
