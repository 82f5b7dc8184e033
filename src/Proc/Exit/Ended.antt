-- ===== src/Proc/Exit/Ended.antt =====
-- What the end of a process leaves.
use create_an_os.Prelude.{
  ℕ, ◌<◌, ◌≡◌, ◌≢◌, refl, sym, ap, ◌∙◌, bit_and, arith, List, if◌then◌else◌, length, length-set,
  set, ok, fault, read, write-ok, lt-of_read, read-set_self, read-set_ne,
}
use create_an_os.Fs.Disk.{Fs}
use create_an_os.Mem.Fault.{Space, table_of}
use create_an_os.Mem.Cleanup.{sys_cleanup_memory}
use create_an_os.Mem.Cleanup.Private.{IsFirst, IsPrivate, entry_of, sys_cleanup_memory-fault}
use create_an_os.Proc.Table.{Pcb, hanging, is_waiting}
use create_an_os.Proc.Wait.{is_child, adopt, eax_at}
use create_an_os.Proc.Wait.Handover.{adopt-read, hand_over_lem, woken, left_behind, told}
use create_an_os.Proc.Fork.{Kernel}
use create_an_os.Proc.Exit.{close_fds, sys_exit}
use create_an_os.Proc.Exit.Files.{AreFiles, AreClosed, close_fds-AreClosed}

-- A process whose father ends has process 0 as its father.
abbrev pub adopted : ℕ → ℕ → Pcb → Pcb
adopted me j pcb = if is_child me j pcb then record pcb { father = 0 } else pcb

-- The table with the files of `me` closed and its children adopted.
abbrev orphaned : ℕ → Pcb → Fs → List Pcb → List Pcb
orphaned me pcb fs procs = adopt me 0 (set procs me (record pcb { fds = fs.fds }))

abbrev ended : ℕ → Pcb → Pcb → Space → Fs → Kernel → Kernel
ended me pcb fpcb space fs k = record k {
  procs =
      left_behind pcb.father me (adopted me pcb.father fpcb)
        (adopted me me (record pcb { fds = fs.fds })) (orphaned me pcb fs k.procs);
  space = record space {
    frames = record space.frames { word = told me (adopted me pcb.father fpcb) space.frames.word };
  };
}

orphaned-read :
    (me j : ℕ) (pcb q : Pcb) (fs : Fs) (procs : List Pcb)
    → me ≢ j
    → read procs j ≡ ok q
    → read (orphaned me pcb fs procs) j ≡ ok (adopted me j q)
orphaned-read me j pcb q fs procs ne at =
    adopt-read me 0 j (set procs me (record pcb { fds = fs.fds })) q
      (read-set_ne procs me j (record pcb { fds = fs.fds }) ne ∙ at)
    ∙ ap (λ n. ok (adopted me n q)) (omega arith)

orphaned-own :
    (me : ℕ) (pcb : Pcb) (fs : Fs) (procs : List Pcb)
    → me < length procs
    → read (orphaned me pcb fs procs) me ≡ ok (adopted me me (record pcb { fds = fs.fds }))
orphaned-own me pcb fs procs inside =
    adopt-read me 0 me (set procs me (record pcb { fds = fs.fds })) (record pcb { fds = fs.fds })
      (read-set_self procs me (record pcb { fds = fs.fds }) inside)
    ∙ ap (λ n. ok (adopted me n (record pcb { fds = fs.fds }))) (omega arith)

sys_exit_lem :
    (me : ℕ) (pcb fpcb : Pcb) (space : Space) (fs fs' : Fs) (k : Kernel)
    → k.current_proc ≡ me
    → read k.procs me ≡ ok pcb
    → read k.procs pcb.father ≡ ok fpcb
    → me ≢ pcb.father
    → close_fds 4 0 (record fs { fds = pcb.fds }) ≡ ok fs'
    → sys_cleanup_memory pcb.pde k.space ≡ ok space
    → sys_exit k fs ≡ ok (ended me pcb fpcb space fs' k, fs')
unfolding sys_exit
sys_exit_lem me pcb fpcb space fs fs' k current own there ne closed cleaned =
    let inside = lt-of_read k.procs me pcb own in
    rw
      (
        current,
        own,
        closed,
        write-ok k.procs me (record pcb { fds = fs'.fds }) inside,
        cleaned,
        hand_over_lem pcb.father me (adopted me pcb.father fpcb)
            (adopted me me (record pcb { fds = fs'.fds }))
            (record { procs = orphaned me pcb fs' k.procs; word = space.frames.word })
            (orphaned-read me pcb.father pcb fpcb fs' k.procs ne there)
            (orphaned-own me pcb fs' k.procs inside) (λ e. ne (sym e)),
      )
      refl

adopted-own : (me : ℕ) (pcb : Pcb) → adopted me me pcb ≡ pcb
adopted-own me pcb = ground arith

adopted-stat : (me j : ℕ) (pcb : Pcb) → (adopted me j pcb).stat ≡ pcb.stat
adopted-stat me j pcb = ground arith

adopted-kstktop : (me j : ℕ) (pcb : Pcb) → (adopted me j pcb).kstktop ≡ pcb.kstktop
adopted-kstktop me j pcb = ground arith

-- What the end of process `me` promises, `space` being memory once its own is given back.
pub record IsEnded (me : ℕ) (pcb fpcb : Pcb) (space : Space) (fs : Fs) (k k' : Kernel) (fs' : Fs)
    : Type 0 where
  pub files : AreClosed 0 4 (record fs { fds = pcb.fds }) fs'
  pub own : read k'.procs me ≡ ok (record pcb { fds = fs'.fds; stat = hanging })
  pub father : read k'.procs pcb.father ≡ ok (woken (adopted me pcb.father fpcb))
  pub others :
      (j : ℕ) (q : Pcb)
      → me ≢ j
      → pcb.father ≢ j
      → read k.procs j ≡ ok q
      → read k'.procs j ≡ ok (adopted me j q)
  pub result :
      k'.space.frames.word (eax_at fpcb.kstktop)
      ≡ (if is_waiting fpcb.stat then me else space.frames.word (eax_at fpcb.kstktop))

told_lem :
    (me j : ℕ) (fpcb : Pcb) (word : ℕ → ℕ)
    → told me (adopted me j fpcb) word (eax_at fpcb.kstktop)
      ≡ (if is_waiting fpcb.stat then me else word (eax_at fpcb.kstktop))
told_lem me j fpcb word = rw (adopted-stat me j fpcb, adopted-kstktop me j fpcb) (ground arith)

-- A process ends: it is not its own father, its four descriptors are empty or lie in the table of
-- open files, and giving its memory back returns. The call comes to its interrupt with the process
-- hanging and all its descriptors empty; every child of it has process 0 as its father; the father
-- is ready and told the number of the process if it waited, and is as it was if not, but for its own
-- father if that was the process.
pub sys_exit-IsEnded :
    (me : ℕ) (pcb fpcb : Pcb) (space : Space) (k : Kernel) (fs : Fs)
    → k.current_proc ≡ me
    → read k.procs me ≡ ok pcb
    → read k.procs pcb.father ≡ ok fpcb
    → me ≢ pcb.father
    → length pcb.fds ≡ 4
    → AreFiles (length fs.file_desc_table) pcb.fds
    → sys_cleanup_memory pcb.pde k.space ≡ ok space
    → (k' : Kernel) × (fs' : Fs) × (sys_exit k fs ≡ ok (k', fs'))
      × IsEnded me pcb fpcb space fs k k' fs'
sys_exit-IsEnded me pcb fpcb space k fs current own there ne size files cleaned =
    let (fs', e, c) =
      close_fds-AreClosed 4 0 (record fs { fds = pcb.fds }) (omega arith) size files in
    let closed : Pcb = record pcb { fds = fs'.fds } in
    let left = orphaned me pcb fs' k.procs in
    let up = woken (adopted me pcb.father fpcb) in
    let down : Pcb = record (adopted me me closed) { stat = hanging } in
    let woken_read =
      lt-of_read left pcb.father (adopted me pcb.father fpcb)
        (orphaned-read me pcb.father pcb fpcb fs' k.procs ne there) in
    let own_read =
      lt-of_read left me (adopted me me closed)
        (orphaned-own me pcb fs' k.procs (lt-of_read k.procs me pcb own)) in
    (
      ended me pcb fpcb space fs' k,
      fs',
      sys_exit_lem me pcb fpcb space fs fs' k current own there ne e cleaned,
      record {
        files = c;
        own =
            read-set_self (set left pcb.father up) me down
              (omega (arith, length-set left pcb.father up, own_read))
            ∙ ap (λ (p : Pcb). ok (record p { stat = hanging })) (adopted-own me closed);
        father =
            read-set_ne (set left pcb.father up) me pcb.father down ne
            ∙ read-set_self left pcb.father up woken_read;
        others = λ j q nm nf at.
            read-set_ne (set left pcb.father up) me j down nm
            ∙ read-set_ne left pcb.father j up nf
            ∙ orphaned-read me j pcb q fs' k.procs nm at;
        result = told_lem me pcb.father fpcb space.frames.word;
      },
    )

-- A process with a page of user space of its own cannot end: its first page table's first page is
-- such a page and is not counted as shared, its descriptors are empty or lie in the table of open
-- files. Giving the page back writes outside of the bitmap of pages, before the father is told.
pub sys_exit-fault :
    (d t n : ℕ) (pcb : Pcb) (k : Kernel) (fs : Fs)
    → read k.procs k.current_proc ≡ ok pcb
    → length pcb.fds ≡ 4
    → AreFiles (length fs.file_desc_table) pcb.fds
    → d < 768
    → IsFirst pcb.pde d k.space
    → t < 1024
    → IsFirst (table_of (entry_of pcb.pde d k.space)) t k.space
    → IsPrivate n
        (bit_and (entry_of (table_of (entry_of pcb.pde d k.space)) t k.space) 0xfffff000)
        k.space
    → sys_exit k fs ≡ fault
unfolding sys_exit
sys_exit-fault d t n pcb k fs own size files h first below first' private =
    let (fs', e, c) =
      close_fds-AreClosed 4 0 (record fs { fds = pcb.fds }) (omega arith) size files in
    rw
      (
        own,
        e,
        write-ok k.procs k.current_proc (record pcb { fds = fs'.fds })
            (lt-of_read k.procs k.current_proc pcb own),
        sys_cleanup_memory-fault pcb.pde d t n k.space h first below first' private,
      )
      refl
