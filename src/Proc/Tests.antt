-- ===== src/Proc/Tests.antt =====
-- The scheduler at a concrete table.
use create_an_os.Prelude.{
  if◌then◌else◌, ℕ, suc, zero, ◌+◌, ◌%◌, ◌≡◌, refl, sym, ap, ◌∙◌, arith, inl, List, [], ◌∷◌, false,
  replicate, ok, hang, ok-injective, read,
}
use create_an_os.Common.Bitmap.Laws.{IsBytes-replicate}
use create_an_os.Sys.Frame.{zero_frame}
use create_an_os.Mem.Paging.{page_table_start}
use create_an_os.Proc.Wait.{reaped, Machine, eax_at, is_child, hand_over, wait_round}
use create_an_os.Proc.Wait.Scan.{NoneEnded}
use create_an_os.Proc.Wait.Handover.{wait_round-hand_over}
use create_an_os.Proc.Table.{is_hanging, is_waiting}
use create_an_os.Proc.Table.{Pcb, Status, empty, ready, waiting, dead, is_ready}
use create_an_os.Proc.Schedule.{Processor, schedule, find_ready}
use create_an_os.Proc.Schedule.Pass.{IsHoused, IsValid, Chosen}
use create_an_os.Proc.Schedule.RoundRobin.{IsNext, start_slot, schedule-Chosen, find_ready-hang}

abbrev process : Status → Pcb
process s = record {
  regs = zero_frame;
  kstktop = 0xc0502000;
  fds = [];
  pde = page_table_start + 0x5000;
  tty = 0;
  stat = s;
  father = 0;
  privilege = 0;
  pid = 0;
}

-- Process 0 waits, 1 is dead, `s` says what 2 is, and the other slots are empty.
abbrev processor : Status → Processor
processor s = record {
  procs = process waiting ∷ process dead ∷ process s ∷ replicate 29 (process empty);
  current_proc = 0;
  esp0 = 0;
  cr3 = 0;
  frames = record { page_bitmap = 0xff ∷ replicate 27 0; word = λ a. 0 };
}

abbrev AllHoused : List Pcb → Type 0
AllHoused [] = Unit {0}
AllHoused (q ∷ procs) = IsHoused q × AllHoused procs

IsHoused-read :
    (procs : List Pcb) → AllHoused procs → (j : ℕ) (q : Pcb) → read procs j ≡ ok q → IsHoused q
unfolding read
IsHoused-read [] h j q e = absurd (cc)
IsHoused-read (p ∷ procs) h zero q e =
    let same = ok-injective p q e in
    let pde = ap (λ (r : Pcb). r.pde) same in omega (arith, pde, h.0)
IsHoused-read (p ∷ procs) h (suc j) q e = IsHoused-read procs h.1 j q e

IsHoused-replicate : (n : ℕ) → AllHoused (replicate n (process empty))
IsHoused-replicate zero = tt
IsHoused-replicate (suc n) = (omega arith, IsHoused-replicate n)

processor_IsValid : (s : Status) → IsValid (processor s)
processor_IsValid s = record {
  slots = refl;
  housed =
      IsHoused-read (processor s).procs
        (omega arith, (omega arith, (omega arith, IsHoused-replicate 29)));
  frames = record { storage = refl; bytes = (omega arith, IsBytes-replicate 27) };
}

second-IsNext : IsNext 1 1 (process ready) (processor ready)
unfolding read
second-IsNext = record {
  there = refl;
  ready = refl;
  before = λ e q below found.
      let first : e ≡ 0 = omega arith in
      let slot = ap (λ k. read (processor ready).procs ((1 + k) % 32)) first in
      ap (λ (p : Pcb). is_ready p.stat) (sym (ok-injective (process dead) q (sym slot ∙ found)));
}

schedule-Chosen_example :
    (cpu' : Processor) × (schedule (processor ready) ≡ ok cpu')
    × Chosen (start_slot (processor ready)) 1 (process ready) (processor ready) cpu'
schedule-Chosen_example =
    schedule-Chosen 1 (process ready) (processor ready) (omega arith) (inl (omega arith))
      (processor_IsValid ready) second-IsNext

abbrev NoneReady : List Pcb → Type 0
NoneReady [] = Unit {0}
NoneReady (q ∷ procs) = (is_ready q.stat ≡ false) × NoneReady procs

NoneReady-read :
    (procs : List Pcb)
    → NoneReady procs
    → (j : ℕ) (q : Pcb) → read procs j ≡ ok q
    → is_ready q.stat ≡ false
unfolding read
NoneReady-read [] h j q e = absurd (cc)
NoneReady-read (p ∷ procs) h zero q e =
    ap (λ (r : Pcb). is_ready r.stat) (sym (ok-injective p q e)) ∙ h.0
NoneReady-read (p ∷ procs) h (suc j) q e = NoneReady-read procs h.1 j q e

NoneReady-replicate : (n : ℕ) → NoneReady (replicate n (process empty))
NoneReady-replicate zero = tt
NoneReady-replicate (suc n) = (refl, NoneReady-replicate n)

find_ready-hang_example : find_ready 100 1 (processor waiting) ≡ hang
find_ready-hang_example =
    find_ready-hang 100 1 (processor waiting) (processor_IsValid waiting)
      (NoneReady-read (processor waiting).procs (refl, (refl, (refl, NoneReady-replicate 29))))

-- Process 0 and its child 1; the other slots are empty and name a father that is no slot.
abbrev child : Status → Pcb
child s = record (process s) { pid = 1 }

abbrev others : List Pcb
others = replicate 30 (record (process empty) { father = 77 })

abbrev family : Status → List Pcb
family s = process waiting ∷ child s ∷ others

abbrev machine : Machine
machine = record { procs = family ready; word = λ a. 0 }

none_below_one : NoneEnded 0 (family ready) 0 1
none_below_one j q low below at c =
    let here : j ≡ 0 = omega arith in
    let own : is_child 0 j q ≡ false = ground (arith, here) in absurd (cc)

wait_round-hand_over_example :
    (m' : Machine) × (procs : List Pcb) × (hand_over 1 0 machine ≡ ok m')
    × (read m'.procs 0
        ≡ ok (
            if is_waiting waiting
            then record (process waiting) { stat = ready }
            else process waiting))
    × (m'.word (eax_at 0xc0502000) ≡ (if is_waiting waiting then 1 else 0))
    × (wait_round 0 m'.procs ≡ ok (reaped 1 procs))
    × (read procs 1 ≡ ok (record (child ready) { stat = dead }))
unfolding read
wait_round-hand_over_example =
    wait_round-hand_over 0 1 (process waiting) (child ready) machine refl refl refl refl
      (λ e. omega arith) none_below_one

abbrev NoneHanging : List Pcb → Type 0
NoneHanging [] = Unit {0}
NoneHanging (q ∷ procs) = (is_hanging q.stat ≡ false) × NoneHanging procs

NoneHanging-others : (n : ℕ) → NoneHanging (replicate n (record (process empty) { father = 77 }))
NoneHanging-others zero = tt
NoneHanging-others (suc n) = (refl, NoneHanging-others n)

no_one_else :
    (procs : List Pcb) (i : ℕ)
    → NoneHanging procs
    → (j : ℕ) (q : Pcb) → read procs j ≡ ok q
    → is_hanging q.stat ≡ false
unfolding read
no_one_else [] i h j q at = absurd (cc)
no_one_else (x ∷ procs) i h zero q at =
    ap (λ (p : Pcb). is_hanging p.stat) (sym (ok-injective x q at)) ∙ h.0
no_one_else (x ∷ procs) i h (suc j) q at = no_one_else procs i h.1 j q at
