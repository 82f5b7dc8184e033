-- ===== src/Video/Tests.antt =====
-- The screen at concrete inputs.
use create_an_os.Prelude.{
  ℕ, suc, zero, ◌+◌, ◌-◌, ◌≡◌, refl, arith, List, [], ◌∷◌, leb, ltb, ◌&&◌, if◌then◌else◌, length,
  get_or, replicate, ok, read,
}
use create_an_os.Io.Terminal.{Tty, Console}
use create_an_os.Io.Tty.{blank_tty}
use create_an_os.Video.{sys_putchar_with_color, sys_puts_with_color}
use create_an_os.Video.Text.{IsText, cell, sys_puts_with_color_lem}
use create_an_os.Video.Frame.{Printed, sys_putchar_with_color-Printed}

abbrev lower : Tty
lower = record (blank_tty 0x7d0) { pos = 83 }

abbrev console : Console
console = record {
  ttys = blank_tty 0 ∷ lower ∷ [];
  current_tty = 1;
  memory = λ a. 0;
  crtc = λ r. 0;
}

abbrev word : List ℕ
word = b'o' ∷ b'k' ∷ []

sys_puts_with_color_lem_example :
    (con' : Console) × (sys_puts_with_color 1 word 0xf console ≡ ok con')
    × (read con'.ttys 1 ≡ ok (record lower { pos = lower.pos + length word }))
    × ((j : ℕ)
        → con'.memory j ≡ (
            if leb (lower.addr + lower.pos) j && ltb j (lower.addr + lower.pos + length word)
            then cell (get_or word (j - (lower.addr + lower.pos)) 0) 0xf
            else console.memory j))
unfolding read
sys_puts_with_color_lem_example =
    sys_puts_with_color_lem 1 word 0xf lower console refl (omega arith) (omega arith) (omega arith)
      (omega arith)

sys_putchar_with_color-Printed_example :
    (con' : Console) × (sys_putchar_with_color 1 b'\n' 0xf console ≡ ok con')
    × Printed 1 lower console con'
unfolding read
sys_putchar_with_color-Printed_example =
    sys_putchar_with_color-Printed 1 b'\n' 0xf lower console refl (omega arith)

abbrev empty_console : Console
empty_console = record console { ttys = blank_tty 0 ∷ blank_tty 0x7d0 ∷ [] }

xs_IsText : (n : ℕ) → IsText (replicate n b'x')
xs_IsText zero = tt
xs_IsText (suc n) = (omega arith, xs_IsText n)
