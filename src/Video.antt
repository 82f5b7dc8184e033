-- ===== src/Video.antt =====
-- video/video.c: characters and the cursor of a terminal in text-mode video memory.
pub mod Cells
pub mod Cursor
pub mod Text
pub mod Frame
pub mod Overflow
mod Tests
use create_an_os.Prelude.{
  ℕ, zero, suc, ◌+◌, ◌-◌, ◌*◌, ◌/◌, ◌%◌, ◌^◌, List, [], ◌∷◌, bit_or, ltb, ◌==◌, if◌then◌else◌,
  Outcome, ok, hang, ◌>>=◌, read, write,
}
use create_an_os.Io.Terminal.{Tty, Console, store}

abbrev pub screen_width : ℕ
screen_width = 80

abbrev pub screen_height : ℕ
screen_height = 25

abbrev pub screen_size : ℕ
screen_size = screen_width * screen_height

-- `COLOR(COLOR_WHITE, COLOR_BLACK)`
abbrev pub color_default : ℕ
color_default = 0xf

-- `0x20 | (COLOR_DEFAULT << 8)`
abbrev pub blank : ℕ
blank = bit_or 0x20 (color_default * 2 ^ 8)

-- `outb(0x3d4, index); outb(0x3d5, value);`
abbrev pub set_register : ℕ → ℕ → Console → Console
set_register index value con = record con { crtc = store con.crtc index (value % 2 ^ 8) }

unfoldable pub sys_set_cursor_pos : ℕ → ℕ → Console → Outcome Console
sys_set_cursor_pos tty_num position con =
    (if tty_num == con.current_tty then show_cursor else ok con) >>= λ con'. do
      tty ← read con'.ttys tty_num
      ttys ← write con'.ttys tty_num (record tty { pos = position })
      ok (record con' { ttys = ttys })
  where
    show_cursor : Outcome Console
    show_cursor = do
      tty ← read con.ttys con.current_tty
      let true_position = (tty.addr + position) % 2 ^ 32
      ok (set_register 0xf true_position (set_register 0xe (true_position / 2 ^ 8) con))

-- `x` and `y` are bytes.
unfoldable pub sys_set_cursor_coord : ℕ → ℕ → ℕ → Console → Outcome Console
sys_set_cursor_coord tty_num x y con = do
  let position = (y * screen_width + x) % 2 ^ 16
  tty ← read con.ttys tty_num
  ttys ← write con.ttys tty_num (record tty { pos = position })
  sys_set_cursor_pos tty_num position (record con { ttys = ttys })

unfoldable pub get_cursor_pos : ℕ → Console → Outcome ℕ
get_cursor_pos tty_num con = do tty ← read con.ttys tty_num; ok tty.pos

-- The first loop of `sys_roll_screen`, from index `i` with `rounds` rounds left, and the second.
unfoldable pub move_up : ℕ → ℕ → ℕ → (ℕ → ℕ) → ℕ → ℕ
move_up addr zero i memory = memory
move_up addr (suc rounds) i memory =
    move_up addr rounds (i + 1) (store memory (addr + i) (memory (addr + i + screen_width)))

unfoldable pub clear_from : ℕ → ℕ → ℕ → (ℕ → ℕ) → ℕ → ℕ
clear_from addr zero i memory = memory
clear_from addr (suc rounds) i memory =
    clear_from addr rounds (i + 1) (store memory (addr + i) blank)

-- What `sys_roll_screen` does to the memory of a terminal at `addr`.
unfoldable pub rolled : ℕ → (ℕ → ℕ) → ℕ → ℕ
rolled addr memory =
    clear_from addr screen_width (screen_size - screen_width)
      (move_up addr (screen_size - screen_width) 0 memory)

unfoldable pub sys_roll_screen : ℕ → Console → Outcome Console
sys_roll_screen tty_num con = do
  tty ← read con.ttys tty_num
  ok (record con { memory = rolled tty.addr con.memory })

pub record Drawn : Type 0 where
  pub pos : ℕ
  pub memory : ℕ → ℕ

-- The four branches of `sys_putchar_with_color` on `c`, for a terminal at `addr`.
unfoldable pub draw : ℕ → ℕ → ℕ → ℕ → (ℕ → ℕ) → Drawn
draw addr c color pos memory =
    if c == b'\n'
    then record { pos = (pos / screen_width + 1) * screen_width % 2 ^ 16; memory = memory }
    else if c == b'\t'
    then record { pos = (pos / 8 + 1) * 8 % 2 ^ 16; memory = memory }
    else if c == 8
    then (if ltb 0 pos
        then record { pos = pos - 1; memory = store memory (addr + (pos - 1)) blank }
        else record { pos = pos; memory = memory })
    else record {
      pos = (pos + 1) % 2 ^ 16;
      memory = store memory (addr + pos) (bit_or c (color * 2 ^ 8) % 2 ^ 16);
    }

-- `while(pos >= addr + SCREEN_SIZE)`, on fuel; the bound is computed from the terminal's address.
unfoldable pub roll_while : ℕ → ℕ → ℕ → ℕ → Console → Outcome (ℕ × Console)
roll_while zero tty_num addr pos con = hang
roll_while (suc fuel) tty_num addr pos con =
    let again = sys_roll_screen tty_num con >>= roll_while fuel tty_num addr (pos - screen_width) in
    if ltb pos (addr + screen_size) then ok (pos, con) else again

unfoldable pub sys_putchar_with_color : ℕ → ℕ → ℕ → Console → Outcome Console
unfolding get_cursor_pos
sys_putchar_with_color tty_num c color con = do
  old ← get_cursor_pos tty_num con
  tty ← read con.ttys tty_num
  let drawn = draw tty.addr c color old con.memory
  (pos, con') ←
      roll_while (drawn.pos + 1) tty_num tty.addr drawn.pos (record con { memory = drawn.memory })
  sys_set_cursor_pos tty_num pos con'

unfoldable pub sys_putchar : ℕ → ℕ → Console → Outcome Console
sys_putchar tty_num c con = sys_putchar_with_color tty_num c color_default con

-- The characters of the string up to its terminator.
unfoldable pub sys_puts_with_color : ℕ → List ℕ → ℕ → Console → Outcome Console
sys_puts_with_color tty_num [] color con = ok con
sys_puts_with_color tty_num (c ∷ s) color con =
    sys_putchar_with_color tty_num c color con >>= sys_puts_with_color tty_num s color

unfoldable pub sys_puts : ℕ → List ℕ → Console → Outcome Console
sys_puts tty_num s con = sys_puts_with_color tty_num s color_default con

unfoldable pub sys_clear_screen : ℕ → Console → Outcome Console
sys_clear_screen tty_num con = do
  tty ← read con.ttys tty_num
  sys_set_cursor_pos tty_num 0
      (record con { memory = clear_from tty.addr screen_size 0 con.memory })
