-- ===== src/Io/Tests.antt =====
-- The keyboard and the terminals at concrete inputs.
use create_an_os.Prelude.{ℕ, ◌≡◌, refl, arith, List, [], ◌∷◌, ◌++◌, ok, read}
use create_an_os.Io.Kb.{Kb, init_keyboard_interrupt, keyboard_handler, get_byte_from_buffer}
use create_an_os.Io.Kb.Fifo
use create_an_os.Io.Kb.Fifo.{
  Holds, enqueue, dequeue, seen, init-IsValid, keyboard_handler-enqueues,
  get_byte_from_buffer-dequeues,
}
use create_an_os.Io.Terminal.{Tty, Console}
use create_an_os.Io.Tty.{blank_tty, std_read_line}
use create_an_os.Io.Tty.Input.{blank_tty-IsValid}
use create_an_os.Io.Tty.Typing.{Shows, put_all, std_read_line-put_all}

abbrev kb : Kb
kb = record { buffer = init_keyboard_interrupt.buffer; head = 0; tail = 31; cnt = 1 }

keyboard_handler-enqueues_example :
    Holds
      (enqueue (Fifo.contents init_keyboard_interrupt) (0x1e ∷ 0x9e ∷ []))
      (keyboard_handler (0x1e ∷ 0x9e ∷ []) init_keyboard_interrupt)
keyboard_handler-enqueues_example =
    keyboard_handler-enqueues (0x1e ∷ 0x9e ∷ []) init_keyboard_interrupt init-IsValid

abbrev polls : List (List ℕ)
polls = [] ∷ (0x1e ∷ 0x9e ∷ []) ∷ []

get_byte_from_buffer-dequeues_example :
    seen (get_byte_from_buffer polls init_keyboard_interrupt)
    ≡ dequeue polls (Fifo.contents init_keyboard_interrupt)
get_byte_from_buffer-dequeues_example =
    get_byte_from_buffer-dequeues polls init_keyboard_interrupt init-IsValid

-- A queue that goes round its end: a byte at 127 and one at 0.
abbrev round_tty : Tty
round_tty = record (blank_tty 0) { head = 1; tail = 127; cnt = 2 }

abbrev console : Console
console = record {
  ttys = blank_tty 0 ∷ blank_tty 0x7d0 ∷ [];
  current_tty = 0;
  memory = λ a. 0;
  crtc = λ r. 0;
}

console_Shows : Shows 0 [] console
unfolding read
console_Shows = record {
  tty = blank_tty 0;
  here = refl;
  shown = refl;
  valid = blank_tty-IsValid 0;
  fits = omega arith;
  holds = refl;
}

abbrev word : List ℕ
word = b'l' ∷ b's' ∷ []

std_read_line-put_all_example :
    (con' : Console) × (tty drained : Tty) × (put_all 0 (word ++ b'\n' ∷ []) console ≡ ok con')
    × (read con'.ttys 0 ≡ ok tty)
    × (std_read_line 16 tty ≡ ok (word, drained))
    × (drained.cnt ≡ 0)
std_read_line-put_all_example =
    std_read_line-put_all 0 16 word console console_Shows
      ((λ e. omega arith), (λ e. omega arith), ((λ e. omega arith), (λ e. omega arith), tt))
      (omega arith) (omega arith)
