-- ===== src/Io/Driver/Tests.antt =====
-- The terminal driver at concrete inputs.
use create_an_os.Prelude.{ℕ, ◌<◌, ◌≡◌, refl, arith, List, [], ◌∷◌, ok, read}
use create_an_os.Sys.Frame.{zero_frame}
use create_an_os.Io.Kb.{init_keyboard_interrupt}
use create_an_os.Io.Kb.Fifo.{init-IsValid}
use create_an_os.Io.Terminal.{Console}
use create_an_os.Io.Tty.{blank_tty}
use create_an_os.Io.Tty.Input.{blank_tty-IsValid}
use create_an_os.Io.Tty.Typing.{Shows}
use create_an_os.Io.Tty.Switch.{IsSound, two-IsUsable}
use create_an_os.Io.Keys
use create_an_os.Io.Driver.{Driver, Key, interpret_key, tty_driver}
use create_an_os.Io.Driver.Modifiers.{flag_bit}
use create_an_os.Io.Driver.History.{interpret_keys, remembered, interpret_keys-remembered}
use create_an_os.Io.Driver.Loop.{Safely, IsReady, tty_driver-safe}
use create_an_os.Io.Driver.Exchange.{sys_std_read-interpret_key}
use create_an_os.Io.Syscalls.{sys_std_read_begin, sys_std_read_resume}
use create_an_os.Io.Tty.Typing.{put_all}
use create_an_os.Proc.Table.{Pcb, ready, waiting_input}

abbrev reader : Pcb
reader = record {
  regs = zero_frame;
  kstktop = 0;
  fds = [];
  pde = 0;
  tty = 0;
  stat = waiting_input;
  father = 0;
  privilege = 1;
  pid = 1;
}

abbrev console : Console
console = record {
  ttys = blank_tty 0 ∷ blank_tty 0x7d0 ∷ [];
  current_tty = 0;
  memory = λ a. 0;
  crtc = λ r. 0;
}

-- Shift goes down, then the key of the letter.
abbrev driver : Driver
driver = record {
  kb = init_keyboard_interrupt;
  polls = (0x2a ∷ []) ∷ (0x1e ∷ []) ∷ [];
  kbflag = 0;
  console = console;
  procs = reader ∷ record reader { tty = 1 } ∷ [];
}

console_IsSound : IsSound console
console_IsSound = record {
  current_in = omega arith;
  usable = λ n h.
      two-IsUsable (blank_tty 0) (blank_tty 0x7d0) n (blank_tty-IsValid 0) (omega arith)
        (blank_tty-IsValid 0x7d0) (omega arith) h;
}

console_Shows : Shows 0 [] console
unfolding read
console_Shows = record {
  tty = blank_tty 0;
  here = refl;
  shown = refl;
  valid = blank_tty-IsValid 0;
  fits = omega arith;
  holds = refl;
}

abbrev control : ℕ → Key
control m = record { code = Keys.ctrl_l; mark = m }

interpret_keys-remembered_example :
    (d' : Driver) × (interpret_keys (control 1 ∷ control 0 ∷ []) driver ≡ ok d')
    × IsSound d'.console
    × ((j : ℕ)
        → j < 9
        → flag_bit d'.kbflag j ≡ remembered j (control 1 ∷ control 0 ∷ []) (flag_bit 0 j))
interpret_keys-remembered_example =
    interpret_keys-remembered (control 1 ∷ control 0 ∷ []) driver console_IsSound (omega arith)

tty_driver-safe_example : Safely (tty_driver (7 ∷ 7 ∷ []) driver) IsReady
tty_driver-safe_example =
    tty_driver-safe (7 ∷ 7 ∷ []) driver (record { kb = init-IsValid; console = console_IsSound })

abbrev word : List ℕ
word = b'l' ∷ b's' ∷ []

sys_std_read-interpret_key_example :
    (procs : List Pcb) × (con con' : Console) × (d' : Driver) × (sys_std_read_begin 0 driver.procs
      ≡ ok procs)
    × (put_all 0 word driver.console ≡ ok con)
    × (interpret_key
          (record { code = Keys.enter; mark = 1 })
          (record driver { console = con; procs = procs })
        ≡ ok d')
    × (read d'.procs 0 ≡ ok (record reader { stat = ready }))
    × (sys_std_read_resume 0 16 d'.procs d'.console ≡ ok (word, con'))
unfolding read
sys_std_read-interpret_key_example =
    sys_std_read-interpret_key 0 0 16 1 word reader driver refl refl console_Shows
      ((λ e. omega arith), (λ e. omega arith), ((λ e. omega arith), (λ e. omega arith), tt))
      (omega arith) (omega arith) (λ e. omega arith)
