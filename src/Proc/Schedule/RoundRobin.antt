-- ===== src/Proc/Schedule/RoundRobin.antt =====
-- The scheduler takes the next ready process in cyclic order, and empties the slots of the dead
-- processes on its way.
use create_an_os.Prelude.{
  read-some, ℕ, zero, suc, ◌+◌, ◌-◌, ◌%◌, ◌^◌, ◌<◌, ◌≡◌, ◌≢◌, refl, sym, ap, ◌∙◌, ◌⊎◌, inl, inr,
  true, false, arith, ltb, if◌then◌else◌, ℕ_discrete, Bool-cases, le→ltb_false, lt→ltb, set, ok,
  hang, ok-injective, read, lt-of_read, read-set_self, read-set_ne,
}
use create_an_os.Common.Bitmap.Laws.{bit_at}
use create_an_os.Proc.Table.{Pcb, dead, is_ready, is_dead}
use create_an_os.Proc.Schedule.{Processor, slot, switch_to, find_ready, schedule}
use create_an_os.Proc.Schedule.Pass.{
  frame_of, IsValid, passed, past, dist, Chosen, find_ready-pass, find_ready-stop, past-IsValid,
  past-bit, Chosen-here,
}

-- The next slot, going round, and how far the others are from it.
abbrev next_slot : ℕ → ℕ
next_slot s = (s + 1) % 32

dist-next : (s j : ℕ) → s < 32 → j < 32 → s ≢ j → dist s j ≡ suc (dist (next_slot s) j)
dist-next s j hs hj ne = omega arith

dist-next_self : (s : ℕ) → s < 32 → (dist s s ≡ 0) × (dist (next_slot s) s ≡ 31)
dist-next_self s hs = omega arith

ltb-suc : (a d : ℕ) → ltb (suc a) (suc d) ≡ ltb a d
ltb-suc a d = ground arith

module _ (s d : ℕ) (pcb first : Pcb) (cpu cpu' : Processor) (hs : s < 32) (hd : suc d < 32)
    (v : IsValid cpu) (h : read cpu.procs s ≡ ok first)
    (r : Chosen (next_slot s) d pcb (past s first cpu) cpu') where
  in_table : (j : ℕ) (q : Pcb) → read cpu.procs j ≡ ok q → j < 32
  in_table j q e = omega (arith, lt-of_read cpu.procs j q e, v.slots)

  first_at : (j : ℕ) (q : Pcb) → read cpu.procs j ≡ ok q → s ≡ j → first ≡ q
  first_at j q e here = ok-injective first q (sym h ∙ ap (read cpu.procs) here ∙ e)

  first_passed : read cpu'.procs s ≡ ok (passed first)
  first_passed =
      r.table s (passed first)
        (read-set_self cpu.procs s (passed first) (lt-of_read cpu.procs s first h))
      ∙ ap (λ b. ok (if b then passed (passed first) else passed first))
          (le→ltb_false (dist (next_slot s) s) d (omega (arith, dist-next_self s hs)))

  first_freed : first.stat ≡ dead → bit_at cpu'.frames.page_bitmap (frame_of first) ≡ 0
  first_freed gone =
      ground
        (arith, r.kept (frame_of first), past-bit s first cpu (frame_of first) v h, ap is_dead gone)

  later_table :
      (j : ℕ) (q : Pcb)
      → read cpu.procs j ≡ ok q
      → read cpu'.procs j ≡ ok (if ltb (dist s j) (suc d) then passed q else q)
  later_table j q e = elim (ℕ_discrete s j) [
    | yes here ↦
        ap (read cpu'.procs) (sym here)
        ∙ first_passed
        ∙ ap (λ p. ok (passed p)) (first_at j q e here)
        ∙ ap (λ b. ok (if b then passed q else q))
            (sym (lt→ltb (dist s j) (suc d) (omega (arith, here))))
    | no other ↦
        r.table j q (read-set_ne cpu.procs s j (passed first) other ∙ e)
        ∙ ap (λ b. ok (if b then passed q else q))
            (sym (ltb-suc (dist (next_slot s) j) d)
              ∙ ap (λ a. ltb a (suc d)) (sym (dist-next s j hs (in_table j q e) other)))
  ]

  later_kept :
      (k : ℕ)
      → (bit_at cpu'.frames.page_bitmap k ≡ bit_at cpu.frames.page_bitmap k)
        ⊎ (bit_at cpu'.frames.page_bitmap k ≡ 0)
  later_kept k = ground (arith, r.kept k, past-bit s first cpu k v h)

  later_freed :
      (j : ℕ) (q : Pcb)
      → read cpu.procs j ≡ ok q
      → dist s j < suc d
      → q.stat ≡ dead
      → bit_at cpu'.frames.page_bitmap (frame_of q) ≡ 0
  later_freed j q e near gone = elim (ℕ_discrete s j) [
    | yes here ↦
        ap (λ p. bit_at cpu'.frames.page_bitmap (frame_of p)) (sym (first_at j q e here))
        ∙ first_freed (ap (λ (p : Pcb). p.stat) (first_at j q e here) ∙ gone)
    | no other ↦
        r.freed j q (read-set_ne cpu.procs s j (passed first) other ∙ e)
          (omega (arith, dist-next s j hs (in_table j q e) other)) gone
  ]

  Chosen-later : Chosen s (suc d) pcb cpu cpu'
  Chosen-later = record {
    current = r.current ∙ omega arith;
    stack = r.stack;
    directory = r.directory;
    valid = r.valid;
    table = later_table;
    freed = later_freed;
    kept = later_kept;
  }

-- What stands in slot `(s + d) % 32` is ready, and no slot from `s` on before it is.
pub record IsNext (s d : ℕ) (pcb : Pcb) (cpu : Processor) : Type 0 where
  pub there : read cpu.procs ((s + d) % 32) ≡ ok pcb
  pub ready : is_ready pcb.stat ≡ true
  pub before :
      (e : ℕ) (q : Pcb) → e < d → read cpu.procs ((s + e) % 32) ≡ ok q → is_ready q.stat ≡ false

slot-next : (s : ℕ) → s < 32 → slot (s + 1) ≡ next_slot s
slot-next s h = ground arith

module _ (s : ℕ) (first : Pcb) (cpu : Processor) (hs : s < 32) where
  -- Slot `s + 1 + e`, and what stands there once slot `s` is passed.
  around : (e : ℕ) → (next_slot s + e) % 32 ≡ (s + suc e) % 32
  around e = omega arith

  unchanged :
      (e : ℕ)
      → suc e < 32
      → read (past s first cpu).procs ((next_slot s + e) % 32) ≡ read cpu.procs ((s + suc e) % 32)
  unchanged e h =
      ap (read (past s first cpu).procs) (around e)
      ∙ read-set_ne cpu.procs s ((s + suc e) % 32) (passed first) (omega arith)

  IsNext-past :
      (d : ℕ) (pcb : Pcb)
      → suc d < 32
      → IsNext s (suc d) pcb cpu
      → IsNext (next_slot s) d pcb (past s first cpu)
  IsNext-past d pcb hd n = record {
    there = unchanged d hd ∙ n.there;
    ready = n.ready;
    before = λ e q below found.
        n.before (suc e) q (omega arith) (sym (unchanged e (omega arith)) ∙ found);
  }

find_ready-Chosen :
    (d fuel i s : ℕ) (pcb : Pcb) (cpu : Processor)
    → d < fuel
    → d < 32
    → s < 32
    → slot i ≡ s
    → IsValid cpu
    → IsNext s d pcb cpu
    → (cpu' : Processor) × (find_ready fuel i cpu ≡ ok cpu') × Chosen s d pcb cpu cpu'
find_ready-Chosen d zero i s pcb cpu hf hd hs at v n = absurd (omega arith)
find_ready-Chosen zero (suc fuel) i s pcb cpu hf hd hs at v n =
    let here : read cpu.procs s ≡ ok pcb = ap (read cpu.procs) (omega arith) ∙ n.there in
    (
      switch_to s pcb cpu,
      find_ready-stop fuel i pcb cpu (ap (read cpu.procs) at ∙ here) n.ready
          ∙ ap (λ k. ok (switch_to k pcb cpu)) at,
      Chosen-here s pcb cpu hs v here,
    )
find_ready-Chosen (suc d) (suc fuel) i s pcb cpu hf hd hs at v n =
    let (first, found) = read-some cpu.procs s (omega (arith, v.slots)) in
    let here : read cpu.procs ((s + 0) % 32) ≡ ok first =
      ap (read cpu.procs) (omega arith) ∙ found in
    let idle = n.before 0 first (omega arith) here in
    let (cpu', e, r) =
      find_ready-Chosen d fuel (s + 1) (next_slot s) pcb (past s first cpu) (omega arith)
        (omega arith) (omega arith) (slot-next s hs) (past-IsValid s first cpu v found)
        (IsNext-past s first cpu hs d pcb hd n) in
    (
      cpu',
      find_ready-pass fuel i first cpu v (ap (read cpu.procs) at ∙ found) idle
          ∙ ap (λ k. find_ready fuel (k + 1) (past k first cpu)) at
          ∙ e,
      Chosen-later s d pcb first cpu cpu' hs hd v found r,
    )

-- The slot after the current process, also at the start, where `current_proc` is -1.
abbrev pub start_slot : Processor → ℕ
start_slot cpu = (cpu.current_proc + 1) % 2 ^ 32 % 32

-- The table has 32 slots, all page directories lie among the page tables, and the current process
-- is a slot or -1. If the first ready process in cyclic order after the current one stands `d`
-- slots on, the scheduler returns, runs it with its stack and page directory, and changes the
-- table only in the slots that it passed: the dead processes there are gone and their page
-- directories are free.
pub schedule-Chosen :
    (d : ℕ) (pcb : Pcb) (cpu : Processor)
    → d < 32
    → (cpu.current_proc < 32) ⊎ (cpu.current_proc ≡ 2 ^ 32 - 1)
    → IsValid cpu
    → IsNext (start_slot cpu) d pcb cpu
    → (cpu' : Processor) × (schedule cpu ≡ ok cpu') × Chosen (start_slot cpu) d pcb cpu cpu'
unfolding schedule
schedule-Chosen d pcb cpu hd current v n =
    find_ready-Chosen d 33 ((cpu.current_proc + 1) % 2 ^ 32) (start_slot cpu) pcb cpu (omega arith)
      hd (omega arith) (ground (arith, current)) v n

passed-idle : (q : Pcb) → is_ready q.stat ≡ false → is_ready (passed q).stat ≡ false
passed-idle q idle = elim (Bool-cases (is_dead q.stat)) [
  | inl gone ↦ rw gone
  | inr lives ↦ rw lives idle
]

none_ready-past :
    (s : ℕ) (first : Pcb) (cpu : Processor)
    → read cpu.procs s ≡ ok first
    → ((j : ℕ) (q : Pcb) → read cpu.procs j ≡ ok q → is_ready q.stat ≡ false)
    → (j : ℕ) (q : Pcb) → read (past s first cpu).procs j ≡ ok q
    → is_ready q.stat ≡ false
none_ready-past s first cpu found none j q e = elim (ℕ_discrete s j) [
  | yes here ↦
      let own = read-set_self cpu.procs s (passed first) (lt-of_read cpu.procs s first found) in
      let same =
        ok-injective (passed first) q
          (sym own ∙ ap (read (set cpu.procs s (passed first))) here ∙ e) in
      ap (λ (p : Pcb). is_ready p.stat) (sym same) ∙ passed-idle first (none s first found)
  | no other ↦ none j q (sym (read-set_ne cpu.procs s j (passed first) other) ∙ e)
]

-- The table has 32 slots and all page directories lie among the page tables. Where no process is
-- ready the scheduler never returns, however long it goes round.
pub find_ready-hang :
    (fuel i : ℕ) (cpu : Processor)
    → IsValid cpu
    → ((j : ℕ) (q : Pcb) → read cpu.procs j ≡ ok q → is_ready q.stat ≡ false)
    → find_ready fuel i cpu ≡ hang
find_ready-hang zero i cpu v none = unfold find_ready in refl
find_ready-hang (suc fuel) i cpu v none =
    let (first, found) = read-some cpu.procs (slot i) (ground (arith, v.slots)) in
    find_ready-pass fuel i first cpu v found (none (slot i) first found)
    ∙ find_ready-hang fuel (slot i + 1) (past (slot i) first cpu)
        (past-IsValid (slot i) first cpu v found) (none_ready-past (slot i) first cpu found none)
