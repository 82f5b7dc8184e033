-- ===== src/Proc/Fork/Child.antt =====
-- What a fork makes: the new process's entry, and the stack that it starts from.
use create_an_os.Prelude.{
  ℕ, ◌+◌, ◌-◌, ◌*◌, ◌%◌, ◌^◌, ◌≤◌, ◌<◌, ◌≡◌, ◌≢◌, refl, ap, ◌/◌, ◌∙◌, arith, List, false, ◌==◌,
  if◌then◌else◌, length, set, ok, read, write-ok, read-set_self, read-set_ne,
}
use create_an_os.Sys.Frame.{frame_size}
use create_an_os.Fs.Disk.{FileDesc, minus_one}
use create_an_os.Mem.Fault.{Space}
use create_an_os.Mem.Copy.{sys_copy_pages}
use create_an_os.Proc.Table.{Pcb, is_empty}
use create_an_os.Proc.Fork.{
  Kernel, proc_kstack_table_start, resume_frame, stack_distance, copied_stack, child_words,
  fork_into, sys_fork,
}
use create_an_os.Proc.Fork.Slots.{IsLowestEmpty, find_empty_lem, find_empty-none}
use create_an_os.Proc.Fork.Stack.{
  words_at, child_frame, child_ebp, stack_word, copied_stack-word, child_words-above,
}

-- Where the new process's frame lies: as far into its stack as the caller's frame, less a frame.
abbrev pub new_esp : ℕ → ℕ → ℕ → ℕ
new_esp param newpid me = param + 0x1000 * newpid - 0x1000 * me - 68

-- The caller's frame lies in the stack of process `me`, with room below it.
pub record IsFrame (param me : ℕ) : Type 0 where
  pub in_table : me < 32
  pub low : proc_kstack_table_start + 0x1000 * me + 68 ≤ param
  pub high : param + frame_size ≤ proc_kstack_table_start + 0x1000 * me + 0x1000
  pub aligned : param % 4 ≡ 0

frame_addresses :
    (param newpid me : ℕ)
    → newpid < 32
    → IsFrame param me
    → ((param + stack_distance newpid me) % 2 ^ 32 ≡ new_esp param newpid me + 68)
      × ((new_esp param newpid me + 68 + 2 ^ 32 - frame_size + 8) % 2 ^ 32
          ≡ new_esp param newpid me)
frame_addresses param newpid me h f = omega (arith, f.in_table, f.low, f.high)

-- The new entry of the table, and the kernel with it.
abbrev child : ℕ → ℕ → ℕ → Pcb → ℕ → Pcb
child param newpid me mine pde = record mine {
  pid = newpid;
  father = me;
  pde = pde;
  kstktop = new_esp param newpid me;
}

abbrev forked : ℕ → ℕ → ℕ → Pcb → ℕ → Space → Kernel → Kernel
forked resume param newpid mine pde space k = record k {
  procs = set k.procs newpid (child param newpid k.current_proc mine pde);
  space = record space {
    frames = record space.frames {
      word =
          child_words resume mine.privilege (new_esp param newpid k.current_proc + 68)
            (new_esp param newpid k.current_proc) (stack_distance newpid k.current_proc)
            space.frames.word;
    };
  };
}

fork_into_lem :
    (resume param newpid pde : ℕ) (mine : Pcb) (space : Space) (k : Kernel) (files : List FileDesc)
    → newpid < 32
    → length k.procs ≡ 32
    → IsFrame param k.current_proc
    → read k.procs k.current_proc ≡ ok mine
    → sys_copy_pages mine.pde (copied_stack newpid k.current_proc k.space) ≡ ok (pde, space)
    → fork_into resume param newpid k files
      ≡ ok (newpid, forked resume param newpid mine pde space k, files)
unfolding fork_into
fork_into_lem resume param newpid pde mine space k files h size f own e =
    let (up, down) = frame_addresses param newpid k.current_proc h f in
    rw
      (
        own,
        e,
        up,
        down,
        write-ok k.procs newpid (child param newpid k.current_proc mine pde) (omega (arith, size)),
      )
      refl

-- What a fork promises.
pub record IsForked (resume param newpid pde : ℕ) (mine : Pcb) (k k' : Kernel) : Type 0 where
  pub child : Pcb
  pub entry : read k'.procs newpid ≡ ok child
  pub copy :
      child
      ≡ record mine { pid = newpid; father = k.current_proc; pde = pde; kstktop = child.kstktop }
  pub others : (j : ℕ) → newpid ≢ j → read k'.procs j ≡ read k.procs j
  pub current : k'.current_proc ≡ k.current_proc
  pub stack :
      child.kstktop + 68 + (proc_kstack_table_start + 0x1000 * k.current_proc)
      ≡ param + (proc_kstack_table_start + 0x1000 * newpid)
  pub frame : words_at 17 child.kstktop k'.space.frames.word ≡ resume_frame resume
  pub above :
      (j : ℕ)
      → j < 1024
      → child.kstktop + 68 ≤ stack_word newpid j
      → stack_word newpid j ≢ child.kstktop + 68 + 24
      → k'.space.frames.word (stack_word newpid j)
        ≡ k.space.frames.word (stack_word k.current_proc j)
  pub ebp : k'.space.frames.word (child.kstktop + 68 + 24) ≡ (
      if mine.privilege == 0
      then (k.space.frames.word (param + 24) + stack_distance newpid k.current_proc) % 2 ^ 32
      else k.space.frames.word (param + 24))

-- The frame pointer in the copy of the caller's frame, before it is moved.
frame_pointer :
    (param newpid : ℕ) (space : Space) (k : Kernel)
    → newpid ≢ k.current_proc
    → IsFrame param k.current_proc
    → ((j : ℕ)
        → j < 1024
        → space.frames.word (stack_word newpid j)
          ≡ (copied_stack newpid k.current_proc k.space).frames.word (stack_word newpid j))
    → space.frames.word (new_esp param newpid k.current_proc + 68 + 24)
      ≡ k.space.frames.word (param + 24)
frame_pointer param newpid space k ne f kept =
    let j : ℕ = (param + 24 - (proc_kstack_table_start + 0x1000 * k.current_proc)) / 4 in
    let here : new_esp param newpid k.current_proc + 68 + 24 ≡ stack_word newpid j =
      omega (arith, f.in_table, f.low, f.high, f.aligned) in
    let there : stack_word k.current_proc j ≡ param + 24 =
      omega (arith, f.in_table, f.low, f.high, f.aligned) in
    let inside : j < 1024 = omega (arith, f.in_table, f.low, f.high, f.aligned) in
    ap space.frames.word here
    ∙ kept j inside
    ∙ copied_stack-word newpid k.current_proc j k.space ne inside
    ∙ ap k.space.frames.word there

pub sys_fork-IsForked :
    (resume param newpid pde : ℕ) (mine : Pcb) (space : Space) (k : Kernel) (files : List FileDesc)
    → newpid < 32
    → newpid ≢ k.current_proc
    → length k.procs ≡ 32
    → IsLowestEmpty 0 newpid k.procs
    → IsFrame param k.current_proc
    → read k.procs k.current_proc ≡ ok mine
    → sys_copy_pages mine.pde (copied_stack newpid k.current_proc k.space) ≡ ok (pde, space)
    → ((j : ℕ)
        → j < 1024
        → space.frames.word (stack_word newpid j)
          ≡ (copied_stack newpid k.current_proc k.space).frames.word (stack_word newpid j))
    → (k' : Kernel) × (sys_fork resume param k files ≡ ok (newpid, k', files))
      × IsForked resume param newpid pde mine k k'
unfolding sys_fork
sys_fork-IsForked resume param newpid pde mine space k files h ne size v f own e kept =
    let esp = new_esp param newpid k.current_proc in
    let distance = stack_distance newpid k.current_proc in
    let entry = child param newpid k.current_proc mine pde in
    (
      forked resume param newpid mine pde space k,
      rw (find_empty_lem 32 0 newpid k.procs (omega arith) (omega arith) (omega arith) v)
          (fork_into_lem resume param newpid pde mine space k files h size f own e),
      record {
        child = entry;
        entry = read-set_self k.procs newpid entry (omega (arith, size));
        copy = refl;
        others = λ j d. read-set_ne k.procs newpid j entry d;
        current = refl;
        stack = omega (arith, f.in_table, f.low, f.high);
        frame = child_frame resume mine.privilege esp distance space.frames.word;
        above = λ j inside low d.
            child_words-above resume mine.privilege esp distance (stack_word newpid j)
              space.frames.word low d
            ∙ kept j inside
            ∙ copied_stack-word newpid k.current_proc j k.space ne inside;
        ebp =
            child_ebp resume mine.privilege esp distance space.frames.word
            ∙ ap (λ w. if mine.privilege == 0 then (w + distance) % 2 ^ 32 else w)
                (frame_pointer param newpid space k ne f kept);
      },
    )

-- With no slot empty in a table of 32 the call returns -1, and nothing changes.
pub sys_fork-full :
    (resume param : ℕ) (k : Kernel) (files : List FileDesc)
    → length k.procs ≡ 32
    → ((j : ℕ) (pcb : Pcb) → read k.procs j ≡ ok pcb → is_empty pcb.stat ≡ false)
    → sys_fork resume param k files ≡ ok (minus_one, k, files)
unfolding sys_fork
sys_fork-full resume param k files size full =
    rw (find_empty-none 32 0 k.procs (omega arith) full) refl
