-- ===== src/Sys/Int.antt =====
-- sys/int.c: the gates of the interrupt descriptor table, the table of handlers, and what happens
-- on an interrupt. The entry points `isr0` to `isr47` are assembly: their addresses are a
-- parameter, as is the table's. The two controllers' ports are the bytes that are written to them,
-- in order. A handler runs on a state of the kernel that shows a console.
pub mod Gates
pub mod Message
pub mod Alarm
pub mod Dispatch
mod Tests
use create_an_os.Prelude.{
  ℕ, zero, suc, ◌+◌, ◌-◌, ◌*◌, ◌/◌, ◌%◌, ◌^◌, bit_and, bit_or, List, [], ◌∷◌, ◌++◌, Option, none,
  some, ltb, if◌then◌else◌, replicate, Outcome, ok, ◌>>=◌, read, write,
}
use create_an_os.Sys.Frame.{Frame}
use create_an_os.Sys.Selectors.{selector_kernel_code}
use create_an_os.Io.Terminal.{Console}
use create_an_os.Video.{sys_set_cursor_coord, sys_puts_with_color}
use create_an_os.Fs.Directory.{c_string}

pub record IdtEntry : Type 0 where
  pub addr_low : ℕ
  pub selector : ℕ
  pub reserved : ℕ
  pub attributes : ℕ
  pub addr_high : ℕ

pub record IdtPtr : Type 0 where
  pub limit : ℕ
  pub base : ℕ

abbrev pub zero_gate : IdtEntry
zero_gate = record { addr_low = 0; selector = 0; reserved = 0; attributes = 0; addr_high = 0 }

-- `isr_handler_ptr_t`, for a kernel with the state `S`.
abbrev pub Handler : Type 0 → Type 0
Handler S = Frame → S → Outcome S

pub record Interrupts (S : Type 0) : Type 0 where
  pub idt : List IdtEntry
  pub idt_ptr : IdtPtr
  pub isr_handlers : List (Option (Handler S))
  pub controller : List (ℕ × ℕ)

-- The arguments have their C types: `addr` 32 bits, `selector` 16, `attributes` 8.
unfoldable pub gate_for : ℕ → ℕ → ℕ → IdtEntry
gate_for addr selector attributes = record {
  addr_low = bit_and addr 0xffff;
  selector = selector;
  reserved = 0;
  attributes = attributes;
  addr_high = addr / 2 ^ 16;
}

unfoldable pub set_idt_entry : ℕ → ℕ → ℕ → ℕ → List IdtEntry → Outcome (List IdtEntry)
set_idt_entry num addr selector attributes idt = write idt num (gate_for addr selector attributes)

-- The calls of `set_idt_entry` from `num` on, `left` being left.
unfoldable pub set_gates : (ℕ → ℕ) → ℕ → ℕ → List IdtEntry → Outcome (List IdtEntry)
set_gates isr zero num idt = ok idt
set_gates isr (suc left) num idt =
    set_idt_entry num (isr num) selector_kernel_code 0b11101110 idt >>= set_gates isr left (num + 1)

-- `outb(port, value)` to the two 8259A.
abbrev pub init_controller : List (ℕ × ℕ)
init_controller =
    (0x20, 0x11)
    ∷ (0xa0, 0x11)
    ∷ (0x21, 0x20)
    ∷ (0xa1, 0x28)
    ∷ (0x21, 0x04)
    ∷ (0xa1, 0x02)
    ∷ (0x21, 0x01)
    ∷ (0xa1, 0x01)
    ∷ (0x21, 0b11111111)
    ∷ (0xa1, 0b11111111)
    ∷ []

unfoldable pub init_interrupt : {S : Type 0} → (ℕ → ℕ) → ℕ → Interrupts S → Outcome (Interrupts S)
init_interrupt isr idt_addr s = do
  idt ← set_gates isr 48 0 (replicate 256 zero_gate)
  ok (record {
    idt = idt;
    idt_ptr = record { limit = 256 * 2 ^ 3 - 1; base = idt_addr };
    isr_handlers = replicate 256 none;
    controller = s.controller ++ init_controller;
  })

unfoldable pub register_isr_handler :
    {S : Type 0} → ℕ → Handler S → Interrupts S → Outcome (Interrupts S)
register_isr_handler num handler s = do
  handlers ← write s.isr_handlers num (some handler)
  ok (record s { isr_handlers = handlers })

-- The loop over the digits of `eip`, from digit `i` on with `rounds` left.
unfoldable pub put_digits : ℕ → ℕ → ℕ → List ℕ → Outcome (List ℕ)
put_digits zero i eip str = ok str
put_digits (suc rounds) i eip str =
    let c = bit_and (eip / 2 ^ (i * 4)) 0xf in
    write str (37 - i) (if ltb c 10 then b'0' + c else b'a' - 10 + c)
    >>= put_digits rounds (i + 1) eip

-- `char str[39]`: its initial text fills 22 characters.
abbrev pub unregistered_text : List ℕ
unregistered_text =
    b'U'
    ∷ b'n'
    ∷ b'r'
    ∷ b'e'
    ∷ b'g'
    ∷ b'i'
    ∷ b's'
    ∷ b't'
    ∷ b'e'
    ∷ b'r'
    ∷ b'd'
    ∷ b' '
    ∷ b'i'
    ∷ b'n'
    ∷ b't'
    ∷ b'e'
    ∷ b'r'
    ∷ b'r'
    ∷ b'u'
    ∷ b'p'
    ∷ b't'
    ∷ b' '
    ∷ replicate 17 0

-- The buffer that is printed.
unfoldable pub unregistered_buffer : Frame → Outcome (List ℕ)
unregistered_buffer param = do
  str ← write unregistered_text 22 ((b'0' + param.num / 10) % 2 ^ 8)
  str ← write str 23 (b'0' + param.num % 10)
  str ← write str 24 b' '
  str ← write str 25 b'a'
  str ← write str 26 b't'
  str ← write str 27 b' '
  str ← write str 28 b'0'
  str ← write str 29 b'x'
  str ← put_digits 8 0 param.eip str
  write str 38 0

-- `COLOR(COLOR_RED, COLOR_GREEN)`
abbrev pub alarm_color : ℕ
alarm_color = bit_or (0x2 * 2 ^ 4) 0x4

-- A message on the terminal that is shown.
unfoldable pub alarm : List ℕ → Console → Outcome Console
alarm str con = do
  con ← sys_set_cursor_coord con.current_tty 0 0 con
  s ← c_string str
  sys_puts_with_color con.current_tty s alarm_color con

-- The handler ran, or the kernel stands still with a message on the console.
pub data Interrupted (S : Type 0) : Type 0 where
  returned : S → Interrupted S
  stopped : Console → Interrupted S

unfoldable pub isr_handler :
    {S : Type 0} → (S → Console) → List (Option (Handler S)) → Frame → S → Outcome (Interrupted S)
isr_handler console isr_handlers param s = read isr_handlers param.num >>= λ handler. elim handler [
  | none ↦ unregistered_buffer param >>= λ str. alarm str (console s) >>= λ con. ok (stopped con)
  | some run ↦ run param s >>= λ s'. ok (returned s')
]
