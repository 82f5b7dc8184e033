-- ===== src/Proc/Schedule.antt =====
-- proc/schedule.c: the choice of the next process, and the end of the dead ones it passes.
pub mod Pass
pub mod RoundRobin
use create_an_os.Prelude.{
  ℕ, zero, suc, ◌+◌, ◌-◌, ◌%◌, ◌^◌, List, leb, if◌then◌else◌, Outcome, ok, hang, ◌>>=◌, read, write,
}
use create_an_os.Sys.Frame.{frame_size}
use create_an_os.Mem.Paging.{Frames, proc_max_cnt, page_vir_to_phy, sys_free_page_frame}
use create_an_os.Proc.Table.{Pcb, Status, ready, empty, is_ready, is_dead}

-- The process table with what the scheduler sets: `esp0` of the task state, and register cr3.
pub record Processor : Type 0 where
  pub procs : List Pcb
  pub current_proc : ℕ
  pub esp0 : ℕ
  pub cr3 : ℕ
  pub frames : Frames

-- Process `i` runs next.
unfoldable pub switch_to : ℕ → Pcb → Processor → Processor
unfolding page_vir_to_phy
switch_to i pcb cpu = record cpu {
  current_proc = i;
  esp0 = (pcb.kstktop + frame_size) % 2 ^ 32;
  cr3 = page_vir_to_phy pcb.pde;
}

-- A dead process gives its page directory back.
unfoldable pub bury : ℕ → Pcb → Processor → Outcome Processor
bury i pcb cpu = sys_free_page_frame pcb.pde cpu.frames >>= λ frames.
    write cpu.procs i (record pcb { stat = empty }) >>= λ procs.
    ok (record cpu { procs = procs; frames = frames })

-- `if(i >= PROC_MAX_CNT)i = 0;`
abbrev pub slot : ℕ → ℕ
slot i = if leb proc_max_cnt i then 0 else i

-- The loop without end from `i` on, on fuel: it hangs where no process is ready.
unfoldable pub find_ready : ℕ → ℕ → Processor → Outcome Processor
find_ready zero i cpu = hang
find_ready (suc fuel) i cpu = read cpu.procs (slot i) >>= λ pcb.
    let next = find_ready fuel (slot i + 1) in
    if is_ready pcb.stat
    then ok (switch_to (slot i) pcb cpu)
    else if is_dead pcb.stat
    then (bury (slot i) pcb cpu >>= next)
    else next cpu

-- One round and one more slot are fuel enough: see RoundRobin.
unfoldable pub schedule : Processor → Outcome Processor
schedule cpu = find_ready (proc_max_cnt + 1) ((cpu.current_proc + 1) % 2 ^ 32) cpu
