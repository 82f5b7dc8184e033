-- ===== src/Sys/Int/Gates.antt =====
-- The interrupt descriptor table after `init_interrupt`.
use create_an_os.Prelude.{
  ℕ, zero, suc, ◌+◌, ◌-◌, ◌*◌, ◌^◌, ◌≤◌, ◌<◌, ◌≡◌, refl, ap, ◌∙◌, arith, List, ◌++◌, none, ◌&&◌,
  leb, ltb, if◌then◌else◌, ℕ_discrete, length, length-set, length-replicate, get_or-replicate, set,
  replicate, ok, read, read-ok, write-ok, read-set_self, read-set_ne,
}
use create_an_os.Prelude.Bits.{bit_and_mask}
use create_an_os.Sys.Selectors.{selector_kernel_code}
use create_an_os.Sys.Int.{
  IdtEntry, Interrupts, gate_for, zero_gate, set_idt_entry, set_gates, init_controller,
  init_interrupt,
}

-- Where a gate leads to.
abbrev pub offset : IdtEntry → ℕ
offset gate = gate.addr_low + gate.addr_high * 2 ^ 16

pub offset-gate_for :
    (addr selector attributes : ℕ) → offset (gate_for addr selector attributes) ≡ addr
unfolding gate_for
offset-gate_for addr selector attributes = rw (bit_and_mask 16 addr) (omega arith)

-- A gate of the kernel's code that user programs may raise.
abbrev pub kernel_gate : ℕ → IdtEntry
kernel_gate addr = gate_for addr selector_kernel_code 0b11101110

set_gates_lem :
    (isr : ℕ → ℕ) (left num : ℕ) (idt : List IdtEntry)
    → num + left ≤ length idt
    → (idt' : List IdtEntry) × (set_gates isr left num idt ≡ ok idt')
      × ((j : ℕ)
          → read idt' j
            ≡ (if leb num j && ltb j (num + left) then ok (kernel_gate (isr j)) else read idt j))
unfolding set_gates set_idt_entry
set_gates_lem isr zero num idt h = (idt, refl, λ j. ground arith)
set_gates_lem isr (suc left) num idt h =
    let gate = kernel_gate (isr num) in
    let (idt', e, at) =
      set_gates_lem isr left (num + 1) (set idt num gate)
        (omega (arith, length-set idt num gate)) in
    (
      idt',
      rw (write-ok idt num gate (omega arith)) e,
      λ j. elim (ℕ_discrete num j) [
        | yes same ↦ at j ∙ rw same (ground (arith, read-set_self idt num gate (omega arith), same))
        | no other ↦ at j ∙ ground (arith, read-set_ne idt num j gate other, other)
      ],
    )

read-replicate {ℓ} : {A : Type ℓ} (n j : ℕ) (gate : A) → j < n → read (replicate n gate) j ≡ ok gate
read-replicate n j gate h =
    read-ok (replicate n gate) j gate (omega (arith, length-replicate n gate))
    ∙ ap ok (get_or-replicate n j gate)

-- Wherever the 48 entry points lie, setting up the interrupts returns. The gates of the first 48
-- numbers lead to them, in order, through the kernel's code segment, and can be raised on every
-- privilege level; the other gates of the 256 are empty, and no handler is registered.
pub init_interrupt-gates :
    {S : Type 0} (isr : ℕ → ℕ) (idt_addr : ℕ) (s : Interrupts S)
    → (s' : Interrupts S) × (init_interrupt isr idt_addr s ≡ ok s')
      × ((k : ℕ)
          → k < 48
          → (gate : IdtEntry) × (read s'.idt k ≡ ok gate)
            × (offset gate ≡ isr k)
            × (gate.selector ≡ selector_kernel_code)
            × (gate.attributes ≡ 0b11101110))
      × ((k : ℕ) → 48 ≤ k → k < 256 → read s'.idt k ≡ ok zero_gate)
      × ((k : ℕ) → k < 256 → read s'.isr_handlers k ≡ ok none)
unfolding init_interrupt
init_interrupt-gates {S} isr idt_addr s =
    let (idt, e, at) =
      set_gates_lem isr 48 0 (replicate 256 zero_gate)
        (omega (arith, length-replicate 256 zero_gate)) in
    (
      record {
        idt = idt;
        idt_ptr = record { limit = 256 * 2 ^ 3 - 1; base = idt_addr };
        isr_handlers = replicate 256 none;
        controller = s.controller ++ init_controller;
      },
      rw e,
      λ k h. (
        kernel_gate (isr k),
        at k ∙ ground arith,
        offset-gate_for (isr k) selector_kernel_code 0b11101110,
        unfold gate_for in refl,
        unfold gate_for in refl,
      ),
      λ k low high. at k ∙ ground (arith, read-replicate 256 k zero_gate high),
      λ k h. read-replicate 256 k none h,
    )
