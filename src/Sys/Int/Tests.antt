-- ===== src/Sys/Int/Tests.antt =====
-- Gates, handlers and the message at concrete inputs.
use create_an_os.Prelude.{
  ℕ, ◌+◌, ◌-◌, ◌*◌, ◌≤◌, ◌<◌, ◌≡◌, refl, arith, List, [], ◌∷◌, none, get_or, drop, length,
  replicate, ok, ◌>>=◌, read, write,
}
use create_an_os.Sys.Frame.{Frame, zero_frame}
use create_an_os.Sys.Selectors.{selector_kernel_code}
use create_an_os.Io.Terminal.{Tty, Console}
use create_an_os.Video.Text.{cell}
use create_an_os.Sys.Int.{
  Handler, IdtEntry, Interrupts, stopped, zero_gate, init_interrupt, isr_handler,
  unregistered_buffer, put_digits,
}
use create_an_os.Sys.Int.Gates.{offset, init_interrupt-gates}
use create_an_os.Sys.Int.Message.{hex_value}
use create_an_os.Sys.Int.Dispatch.{isr_handler-stops}

abbrev terminal : Tty
terminal = record { addr = 0; pos = 0; input = []; head = 0; tail = 0; cnt = 0 }

abbrev shown : Console
shown = record { ttys = terminal ∷ []; current_tty = 0; memory = λ a. 0; crtc = λ a. 0 }

abbrev blank_ints : Interrupts Console
blank_ints = record {
  idt = [];
  idt_ptr = record { limit = 0; base = 0 };
  isr_handlers = replicate 256 none;
  controller = [];
}

-- Handlers of a test: one that changes the console.
abbrev to_second : Handler Console
to_second param con = ok (record con { current_tty = 1 })

abbrev fault_6 : Frame
fault_6 = record zero_frame { num = 6; eip = 0xc040beef }

-- "Unregisterd interrupt 06 at 0xc040beef"
digits :
    unregistered_buffer fault_6 >>= (λ s. ok (drop 22 s))
    ≡ ok (
        b'0' ∷ b'6' ∷ b' ' ∷ b'a' ∷ b't' ∷ b' ' ∷ b'0' ∷ b'x' ∷ b'c' ∷ b'0' ∷ b'4' ∷ b'0' ∷ b'b'
        ∷ b'e' ∷ b'e' ∷ b'f' ∷ 0 ∷ [])
unfolding unregistered_buffer put_digits write
digits = refl

init_interrupt-gates_example :
    (s' : Interrupts Console) × (init_interrupt (λ k. 0xc0400000 + 16 * k) 0xc0410000 blank_ints
      ≡ ok s')
    × ((k : ℕ)
        → k < 48
        → (gate : IdtEntry) × (read s'.idt k ≡ ok gate)
          × (offset gate ≡ 0xc0400000 + 16 * k)
          × (gate.selector ≡ selector_kernel_code)
          × (gate.attributes ≡ 0b11101110))
    × ((k : ℕ) → 48 ≤ k → k < 256 → read s'.idt k ≡ ok zero_gate)
    × ((k : ℕ) → k < 256 → read s'.isr_handlers k ≡ ok none)
init_interrupt-gates_example = init_interrupt-gates (λ k. 0xc0400000 + 16 * k) 0xc0410000 blank_ints

isr_handler-stops_example :
    (con : Console) × (text : List ℕ) × (isr_handler
        (λ con. con)
        blank_ints.isr_handlers
        fault_6
        shown
      ≡ ok (stopped con))
    × (length text ≡ 38)
    × ((j : ℕ) → j < 38 → con.memory (0 + j) ≡ cell (get_or text j 0) 0x24)
    × ((get_or text 22 0 - b'0') * 10 + (get_or text 23 0 - b'0') ≡ 6)
    × (hex_value 0 (drop 30 text) ≡ 0xc040beef)
isr_handler-stops_example =
    isr_handler-stops (λ con. con) blank_ints.isr_handlers fault_6 shown terminal
      (unfold read in refl) (omega arith) (omega arith) (unfold read in refl) (omega arith)
