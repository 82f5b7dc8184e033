-- ===== src/Io/Tty.antt =====
-- io/tty.c: the terminals, their input queues, and the line reader behind `std_read`. The scan
-- codes are in Io/Driver.antt.
pub mod Input
pub mod Line
pub mod Drain
pub mod Typing
pub mod Switch
use create_an_os.Prelude.{
  ℕ, zero, suc, ◌+◌, ◌-◌, ◌*◌, ◌/◌, ◌%◌, ◌^◌, List, [], ◌∷◌, Option, none, some, ltb, leb, ◌==◌,
  ◌||◌, if◌then◌else◌, replicate, Outcome, ok, ◌>>=◌, read, write,
}
use create_an_os.Io.Terminal.{Tty, Console}
use create_an_os.Video.{set_register, sys_set_cursor_pos, sys_putchar}

abbrev pub input_size : ℕ
input_size = 128

-- A terminal after `memset` and the loop of `init_ttys`.
abbrev pub blank_tty : ℕ → Tty
blank_tty addr = record {
  addr = addr;
  pos = 0;
  input = replicate input_size 0;
  head = 0;
  tail = 0;
  cnt = 0;
}

unfoldable pub sys_switch_tty : ℕ → Console → Outcome Console
sys_switch_tty i con = do
  tty ← read con.ttys i
  let switched =
      set_register 0xd tty.addr
        (set_register 0xc (tty.addr / 2 ^ 8) (record con { current_tty = i }))
  sys_set_cursor_pos i tty.pos switched

-- Video memory and the registers are as the machine has them. `kbflag`, which starts at 0, is not a
-- part of the console: see `Driver`.
unfoldable pub init_ttys : (ℕ → ℕ) → (ℕ → ℕ) → Outcome Console
init_ttys memory crtc = sys_switch_tty 0 (record {
  ttys = blank_tty 0 ∷ blank_tty 0x7d0 ∷ [];
  current_tty = 0;
  memory = memory;
  crtc = crtc;
})

-- The input queue under one character: `none` where `put_tty_in_buffer` returns early.
unfoldable pub edit_input : ℕ → Tty → Outcome (Option Tty)
edit_input c tty =
    if c == 8
    then (if tty.cnt == 0
        then ok none
        else ok (
            some (record tty {
              head = if tty.head == 0 then 127 else tty.head - 1;
              cnt = tty.cnt - 1;
            })))
    else if leb input_size tty.cnt
    then ok none
    else (write tty.input tty.head c >>= λ input. ok (
        some (record tty {
          input = input;
          head = if leb input_size (tty.head + 1) then 0 else tty.head + 1;
          cnt = tty.cnt + 1;
        })))

-- The character is shown on the current terminal, whichever it is put into.
unfoldable pub put_tty_in_buffer : ℕ → ℕ → Console → Outcome Console
put_tty_in_buffer n c con = read con.ttys n >>= λ tty. edit_input c tty >>= λ edited. elim edited [
  | none ↦ ok con
  | some tty' ↦
      write con.ttys n tty' >>= λ ttys. sys_putchar con.current_tty c (record con { ttys = ttys })
]

-- The first loop of `sys_std_read`, with `left` = `tty->cnt` and room for `room` bytes: what goes
-- to `dest`, and the terminal after it.
unfoldable pub copy_line : ℕ → ℕ → Tty → Outcome (List ℕ × Tty)
copy_line zero room tty = ok ([], tty)
copy_line (suc left) room tty =
    let rest =
      copy_line left (room - 1) (record tty {
        tail = if tty.tail + 1 == input_size then 0 else tty.tail + 1;
        cnt = left;
      }) in
    read tty.input tty.tail >>= λ c.
    if c == b'\n' || room == 0 then ok ([], tty) else (rest >>= λ (line, tty'). ok (c ∷ line, tty'))

-- `while(tty->cnt > 0)++tty->tail, --tty->cnt;`
unfoldable pub drain : ℕ → Tty → Tty
drain zero tty = tty
drain (suc left) tty = drain left (record tty { tail = tty.tail + 1; cnt = left })

-- `sys_std_read` once its process runs again: the bytes that it copies to `dest`, whose number it
-- returns.
unfoldable pub std_read_line : ℕ → Tty → Outcome (List ℕ × Tty)
std_read_line max_size tty =
    copy_line tty.cnt max_size tty >>= λ (line, tty'). ok (line, drain tty'.cnt tty')
