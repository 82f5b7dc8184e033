-- ===== src/Proc/Schedule/Pass.antt =====
-- One slot of the process table under the scheduler: passed, where the process is not ready, or
-- chosen.
use create_an_os.Prelude.{
  ℕ, suc, ◌+◌, ◌-◌, ◌/◌, ◌%◌, ◌^◌, ◌≤◌, ◌<◌, ◌≡◌, refl, sym, ap, ◌∙◌, ◌⊎◌, inl, inr, Bool, true,
  false, ◌&&◌, arith, ltb, ◌==◌, if◌then◌else◌, ℕ_discrete, Bool-cases, le→ltb_false, length, set,
  length-set, ok, ok-injective, read, write-ok, lt-of_read, read-set_self, read-set_ne, set-read,
}
use create_an_os.Common.Bitmap.Laws.{bit_at, with_bit, bit_at-with_bit}
use create_an_os.Sys.Frame.{frame_size}
use create_an_os.Mem.Paging.{page_table_start, page_table_end, page_vir_to_phy}
use create_an_os.Mem.Paging.FrameAlloc
use create_an_os.Mem.Paging.FrameAlloc.{sys_free_page_frame_lem, freed-IsValid}
use create_an_os.Proc.Table.{Pcb, Status, empty, dead, is_ready, is_dead}
use create_an_os.Proc.Schedule.{Processor, slot, switch_to, bury, find_ready}

-- The page directory of a process lies in the area of the page tables, in this frame.
abbrev pub IsHoused : Pcb → Type 0
IsHoused pcb = (page_table_start ≤ pcb.pde) × (pcb.pde < page_table_end)

abbrev pub frame_of : Pcb → ℕ
frame_of pcb = (pcb.pde - page_table_start) / 0x1000

pub record IsValid (cpu : Processor) : Type 0 where
  pub slots : length cpu.procs ≡ 32
  pub housed : (j : ℕ) (q : Pcb) → read cpu.procs j ≡ ok q → IsHoused q
  pub frames : FrameAlloc.IsValid cpu.frames

-- A slot after the scheduler passed it.
abbrev pub passed : Pcb → Pcb
passed q = if is_dead q.stat then record q { stat = empty } else q

-- The state after slot `i`, where `pcb` stands, is passed.
abbrev pub past : ℕ → Pcb → Processor → Processor
past i pcb cpu = record cpu {
  procs = set cpu.procs i (passed pcb);
  frames =
      if is_dead pcb.stat
      then record cpu.frames { page_bitmap = with_bit cpu.frames.page_bitmap (frame_of pcb) 0 }
      else cpu.frames;
}

-- Slots are met in this order from `s` on; `dist` is how many come before `j`.
abbrev pub dist : ℕ → ℕ → ℕ
dist s j = (j + 32 - s) % 32

-- From slot `s`, with the `d` slots before it passed, the process at `(s + d) % 32` was chosen.
pub record Chosen (s d : ℕ) (pcb : Pcb) (cpu cpu' : Processor) : Type 0 where
  pub current : cpu'.current_proc ≡ (s + d) % 32
  pub stack : cpu'.esp0 ≡ (pcb.kstktop + frame_size) % 2 ^ 32
  pub directory : cpu'.cr3 ≡ page_vir_to_phy pcb.pde
  pub valid : IsValid cpu'
  pub table :
      (j : ℕ) (q : Pcb)
      → read cpu.procs j ≡ ok q
      → read cpu'.procs j ≡ ok (if ltb (dist s j) d then passed q else q)
  pub freed :
      (j : ℕ) (q : Pcb)
      → read cpu.procs j ≡ ok q
      → dist s j < d
      → q.stat ≡ dead
      → bit_at cpu'.frames.page_bitmap (frame_of q) ≡ 0
  pub kept :
      (k : ℕ)
      → (bit_at cpu'.frames.page_bitmap k ≡ bit_at cpu.frames.page_bitmap k)
        ⊎ (bit_at cpu'.frames.page_bitmap k ≡ 0)

bury_lem :
    (i : ℕ) (pcb : Pcb) (cpu : Processor)
    → IsValid cpu
    → read cpu.procs i ≡ ok pcb
    → pcb.stat ≡ dead
    → bury i pcb cpu ≡ ok (past i pcb cpu)
unfolding bury
bury_lem i pcb cpu v h e =
    let home = v.housed i pcb h in
    rw (
      sys_free_page_frame_lem (frame_of pcb) pcb.pde cpu.frames v.frames (omega arith) (omega arith)
          (omega arith),
      write-ok cpu.procs i (record pcb { stat = empty }) (lt-of_read cpu.procs i pcb h),
      e,
    )

pub dead_of : (s : Status) → is_dead s ≡ true → s ≡ dead
dead_of dead h = refl
dead_of _ h = cc

-- One round at a slot that is not ready.
pub find_ready-pass :
    (fuel i : ℕ) (pcb : Pcb) (cpu : Processor)
    → IsValid cpu
    → read cpu.procs (slot i) ≡ ok pcb
    → is_ready pcb.stat ≡ false
    → find_ready (suc fuel) i cpu ≡ find_ready fuel (slot i + 1) (past (slot i) pcb cpu)
unfolding find_ready
find_ready-pass fuel i pcb cpu v h ne = elim (Bool-cases (is_dead pcb.stat)) [
  | inl gone ↦ rw (h, ne, gone, bury_lem (slot i) pcb cpu v h (dead_of pcb.stat gone), gone)
  | inr lives ↦ rw (h, ne, lives, set-read cpu.procs (slot i) pcb h)
]

pub find_ready-stop :
    (fuel i : ℕ) (pcb : Pcb) (cpu : Processor)
    → read cpu.procs (slot i) ≡ ok pcb
    → is_ready pcb.stat ≡ true
    → find_ready (suc fuel) i cpu ≡ ok (switch_to (slot i) pcb cpu)
unfolding find_ready
find_ready-stop fuel i pcb cpu h e = rw (h, e)

pub passed-pde : (q : Pcb) → (passed q).pde ≡ q.pde
passed-pde q = ap-if (is_dead q.stat)
  where
    ap-if : (b : Bool) → (if b then record q { stat = empty } else q).pde ≡ q.pde
    ap-if true = refl
    ap-if false = refl

-- Passing a slot keeps the table and the frames in order.
pub past-IsValid :
    (s : ℕ) (pcb : Pcb) (cpu : Processor)
    → IsValid cpu
    → read cpu.procs s ≡ ok pcb
    → IsValid (past s pcb cpu)
past-IsValid s pcb cpu v h = record {
  slots = length-set cpu.procs s (passed pcb) ∙ v.slots;
  housed = λ j q e. housed j q e;
  frames = past_frames;
}
  where
    housed : (j : ℕ) (q : Pcb) → read (set cpu.procs s (passed pcb)) j ≡ ok q → IsHoused q
    housed j q e = elim (ℕ_discrete s j) [
      | yes here ↦
          let own = read-set_self cpu.procs s (passed pcb) (lt-of_read cpu.procs s pcb h) in
          let same : ok (passed pcb) ≡ ok q =
            sym own ∙ ap (read (set cpu.procs s (passed pcb))) here ∙ e in
          rw (sym (ap (λ (p : Pcb). p.pde) (ok-injective (passed pcb) q same)) ∙ passed-pde pcb)
            (v.housed s pcb h)
      | no other ↦ v.housed j q (sym (read-set_ne cpu.procs s j (passed pcb) other) ∙ e)
    ]

    past_frames : FrameAlloc.IsValid (past s pcb cpu).frames
    past_frames = elim (Bool-cases (is_dead pcb.stat)) [
      | inl gone ↦ rw gone (freed-IsValid (frame_of pcb) cpu.frames v.frames)
      | inr lives ↦ rw lives v.frames
    ]

-- A bit after a slot is passed: cleared where a dead process had its directory.
pub past-bit :
    (s : ℕ) (pcb : Pcb) (cpu : Processor) (k : ℕ)
    → IsValid cpu
    → read cpu.procs s ≡ ok pcb
    → bit_at (past s pcb cpu).frames.page_bitmap k
      ≡ (if is_dead pcb.stat && frame_of pcb == k then 0 else bit_at cpu.frames.page_bitmap k)
past-bit s pcb cpu k v h = elim (Bool-cases (is_dead pcb.stat)) [
  | inl gone ↦
      let home = v.housed s pcb h in
      rw gone (
        bit_at-with_bit cpu.frames.page_bitmap (frame_of pcb) 0 v.frames.bytes (omega arith) k
          (omega (arith, home, v.frames.storage)))
  | inr lives ↦ rw lives
]

pub Chosen-here :
    (s : ℕ) (pcb : Pcb) (cpu : Processor)
    → s < 32
    → IsValid cpu
    → read cpu.procs s ≡ ok pcb
    → Chosen s 0 pcb cpu (switch_to s pcb cpu)
unfolding switch_to
Chosen-here s pcb cpu hs v h = record {
  current = omega arith;
  stack = refl;
  directory = refl;
  valid = record { slots = v.slots; housed = v.housed; frames = v.frames };
  table = λ j q e. rw (le→ltb_false (dist s j) 0 (omega arith)) e;
  freed = λ j q e near gone. absurd (omega arith);
  kept = λ k. inl refl;
}
