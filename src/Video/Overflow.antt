-- ===== src/Video/Overflow.antt =====
-- The bound of `sys_putchar_with_color` counts from the start of video memory, the cursor from the
-- start of the terminal: a terminal that does not stand first is rolled too late.
use create_an_os.Prelude.{ℕ, ◌+◌, ◌-◌, ◌≤◌, ◌<◌, ◌≡◌, ◌∙◌, arith, List, length, get_or, ok, read}
use create_an_os.Io.Terminal.{Tty, Console}
use create_an_os.Video.{screen_size, sys_puts_with_color}
use create_an_os.Video.Text.{IsText, cell, sys_puts_with_color_lem}

-- On a terminal at address `a`, a text of printable characters that starts in the upper left corner
-- and is longer than the screen, by less than `a`, is never rolled: each character `k` beyond the
-- screen's 2000 goes into cell `a + k`, behind the last cell of that screen.
pub sys_puts_with_color-overflows :
    (n : ℕ) (s : List ℕ) (color : ℕ) (tty : Tty) (con : Console) (k : ℕ)
    → read con.ttys n ≡ ok tty
    → IsText s
    → color < 256
    → tty.addr ≤ 2000
    → tty.pos ≡ 0
    → length s < tty.addr + screen_size
    → screen_size ≤ k
    → k < length s
    → (con' : Console) × (sys_puts_with_color n s color con ≡ ok con')
      × (con'.memory (tty.addr + k) ≡ cell (get_or s k 0) color)
      × (tty.addr + screen_size ≤ tty.addr + k)
sys_puts_with_color-overflows n s color tty con k h text hc a start room beyond inside =
    let (con', e, e', cells) =
      sys_puts_with_color_lem n s color tty con h text hc a (omega arith) in
    let same : tty.addr + k - (tty.addr + tty.pos) ≡ k = omega arith in
    (con', e, cells (tty.addr + k) ∙ rw same (ground arith), omega arith)
