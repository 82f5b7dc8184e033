-- ===== src/Io/Kb.antt =====
-- io/kb.c: the queue between the keyboard controller and the terminal driver, and io/tty.c's
-- `get_byte_from_buffer`, its reader. A pointer into `buffer` is its index there. The controller
-- enters as the bytes that it has ready, in order: while one is left, bit 0 of port 0x64 is set.
pub mod Fifo
use create_an_os.Prelude.{
  ℕ, ◌+◌, ◌-◌, List, [], ◌∷◌, ltb, leb, ◌==◌, if◌then◌else◌, replicate, Outcome, ok, hang, ◌>>=◌,
  read, write,
}

pub record Kb : Type 0 where
  pub buffer : List ℕ
  pub head : ℕ
  pub tail : ℕ
  pub cnt : ℕ

abbrev pub buffer_size : ℕ
buffer_size = 32

-- `if(++p >= &buffer[32])p = &buffer[0];`
unfoldable pub advance : ℕ → ℕ
advance p = if leb buffer_size (p + 1) then 0 else p + 1

unfoldable pub init_keyboard_interrupt : Kb
init_keyboard_interrupt = record { buffer = replicate buffer_size 0; head = 0; tail = 0; cnt = 0 }

-- The body of the handler's loop, for one byte of port 0x60.
unfoldable pub receive : ℕ → Kb → Outcome Kb
unfolding advance
receive byte kb = if leb buffer_size kb.cnt then ok kb else do
  buffer ← write kb.buffer kb.head byte
  ok (record kb { buffer = buffer; head = advance kb.head; cnt = kb.cnt + 1 })

unfoldable pub keyboard_handler : List ℕ → Kb → Outcome Kb
unfolding receive
keyboard_handler [] kb = ok kb
keyboard_handler (byte ∷ bytes) kb = receive byte kb >>= keyboard_handler bytes

-- `get_byte_from_buffer` once a byte is there.
unfoldable pub take_byte : Kb → Outcome (ℕ × Kb)
unfolding advance
take_byte kb = do
  byte ← read kb.buffer kb.tail
  ok (byte, record kb { tail = advance kb.tail; cnt = kb.cnt - 1 })

-- `while(cnt <= 0)keyboard_handler(0);`: one list of `polls` is what one round finds at the
-- controller. The rest of them comes back with the byte, and the wait hangs when no round is left.
unfoldable pub get_byte_from_buffer : List (List ℕ) → Kb → Outcome (ℕ × Kb × List (List ℕ))
unfolding take_byte keyboard_handler
get_byte_from_buffer [] kb =
    if kb.cnt == 0 then hang else do (byte, kb') ← take_byte kb; ok (byte, kb', [])
get_byte_from_buffer (poll ∷ polls) kb =
    let waits = keyboard_handler poll kb >>= get_byte_from_buffer polls in
    if kb.cnt == 0 then waits else do (byte, kb') ← take_byte kb; ok (byte, kb', poll ∷ polls)
