-- ===== src/Proc/Wait.antt =====
-- proc/proc.c: how a parent waits for its children (`sys_wait`) and how a process ends
-- (`sys_exit`). Both are cut at `int $0x20`, where other processes run.
pub mod Scan
pub mod Round
pub mod Handover
use create_an_os.Prelude.{
  ℕ, zero, suc, ◌+◌, List, [], ◌∷◌, Bool, true, false, not, ◌&&◌, ◌==◌, if◌then◌else◌, Outcome, ok,
  hang, ◌>>=◌, read, write,
}
use create_an_os.Io.Terminal.{store}
use create_an_os.Mem.Paging.{proc_max_cnt}
use create_an_os.Proc.Table.{Pcb, ready, waiting, hanging, dead, is_hanging, is_waiting}

-- One round of `sys_wait`: it returns the pid of a child that ended, or -1, or sleeps.
pub data Waited : Type 0 where
  reaped : ℕ → List Pcb → Waited
  alone : Waited
  sleeps : List Pcb → Waited

-- `proc_table[i]->father == current_proc && i != current_proc`
abbrev pub is_child : ℕ → ℕ → Pcb → Bool
is_child me i pcb = pcb.father == me && not (i == me)

-- The loop over the table from `i` on, `left` slots being left, and what stands behind it; `f` says
-- that a child was met.
unfoldable pub scan : ℕ → ℕ → Bool → ℕ → List Pcb → Outcome Waited
scan zero i f me procs =
    let sleep : Outcome Waited = read procs me >>= λ pcb.
    write procs me (record pcb { stat = waiting }) >>= λ procs'. ok (sleeps procs') in
    if f then sleep else ok alone
scan (suc left) i f me procs =
    let met = scan left (i + 1) true me procs in
    let not_met = scan left (i + 1) f me procs in
    read procs i >>= λ pcb.
    if is_child me i pcb
    then (if is_hanging pcb.stat
        then (write procs i (record pcb { stat = dead }) >>= λ procs'. ok (reaped pcb.pid procs'))
        else met)
    else not_met

unfoldable pub wait_round : ℕ → List Pcb → Outcome Waited
wait_round me procs = scan proc_max_cnt 0 false me procs

-- The end of a process hands its children to process 0.
unfoldable pub adopt : ℕ → ℕ → List Pcb → List Pcb
adopt me i [] = []
adopt me i (pcb ∷ procs) =
    (if is_child me i pcb then record pcb { father = 0 } else pcb) ∷ adopt me (i + 1) procs

-- The table and the words of memory.
pub record Machine : Type 0 where
  pub procs : List Pcb
  pub word : ℕ → ℕ

-- `stk->eax` of the frame at `kstktop`.
abbrev pub eax_at : ℕ → ℕ
eax_at kstktop = kstktop + 44

-- What `sys_exit` does last, up to its next interrupt: while the father does not wait the process
-- hangs; then the father is made ready, has `me` as its result, and the process hangs.
unfoldable pub hand_over : ℕ → ℕ → Machine → Outcome Machine
hand_over me father m = do
  fpcb ← read m.procs father
  procs ←
      (if is_waiting fpcb.stat
        then write m.procs father (record fpcb { stat = ready })
        else ok m.procs)
  pcb ← read procs me
  procs' ← write procs me (record pcb { stat = hanging })
  ok (record {
    procs = procs';
    word = if is_waiting fpcb.stat then store m.word (eax_at fpcb.kstktop) me else m.word;
  })
