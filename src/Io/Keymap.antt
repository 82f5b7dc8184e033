-- ===== src/Io/Keymap.antt =====
-- io/tty.c, `keymap`: for each scan code the key without shift, with shift, and behind 0xe0.
use create_an_os.Prelude.{ℕ, List, [], ◌∷◌}
use create_an_os.Io.Keys

unfoldable pub keymap : List ℕ
keymap =
    0 ∷ 0 ∷ 0 ∷ Keys.esc ∷ Keys.esc ∷ 0 ∷ b'1' ∷ b'!' ∷ 0 ∷ b'2' ∷ b'@' ∷ 0 ∷ b'3' ∷ b'#' ∷ 0 ∷ b'4'
    ∷ b'$' ∷ 0 ∷ b'5' ∷ b'%' ∷ 0 ∷ b'6' ∷ b'^' ∷ 0 ∷ b'7' ∷ b'&' ∷ 0 ∷ b'8' ∷ b'*' ∷ 0 ∷ b'9' ∷ b'('
    ∷ 0 ∷ b'0' ∷ b')' ∷ 0 ∷ b'-' ∷ b'_' ∷ 0 ∷ b'=' ∷ b'+' ∷ 0 ∷ Keys.backspace ∷ Keys.backspace ∷ 0
    ∷ Keys.tab ∷ Keys.tab ∷ 0 ∷ b'q' ∷ b'Q' ∷ 0 ∷ b'w' ∷ b'W' ∷ 0 ∷ b'e' ∷ b'E' ∷ 0 ∷ b'r' ∷ b'R'
    ∷ 0 ∷ b't' ∷ b'T' ∷ 0 ∷ b'y' ∷ b'Y' ∷ 0 ∷ b'u' ∷ b'U' ∷ 0 ∷ b'i' ∷ b'I' ∷ 0 ∷ b'o' ∷ b'O' ∷ 0
    ∷ b'p' ∷ b'P' ∷ 0 ∷ b'[' ∷ b'{' ∷ 0 ∷ b']' ∷ b'}' ∷ 0 ∷ Keys.enter ∷ Keys.enter ∷ Keys.pad_enter
    ∷ Keys.ctrl_l ∷ Keys.ctrl_l ∷ Keys.ctrl_r ∷ b'a' ∷ b'A' ∷ 0 ∷ b's' ∷ b'S' ∷ 0 ∷ b'd' ∷ b'D' ∷ 0
    ∷ b'f' ∷ b'F' ∷ 0 ∷ b'g' ∷ b'G' ∷ 0 ∷ b'h' ∷ b'H' ∷ 0 ∷ b'j' ∷ b'J' ∷ 0 ∷ b'k' ∷ b'K' ∷ 0 ∷ b'l'
    ∷ b'L' ∷ 0 ∷ b';' ∷ b':' ∷ 0 ∷ 39 ∷ b'"' ∷ 0 ∷ b'`' ∷ b'~' ∷ 0 ∷ Keys.shift_l ∷ Keys.shift_l ∷ 0
    ∷ 92 ∷ b'|' ∷ 0 ∷ b'z' ∷ b'Z' ∷ 0 ∷ b'x' ∷ b'X' ∷ 0 ∷ b'c' ∷ b'C' ∷ 0 ∷ b'v' ∷ b'V' ∷ 0 ∷ b'b'
    ∷ b'B' ∷ 0 ∷ b'n' ∷ b'N' ∷ 0 ∷ b'm' ∷ b'M' ∷ 0 ∷ b',' ∷ b'<' ∷ 0 ∷ b'.' ∷ b'>' ∷ 0 ∷ b'/' ∷ b'?'
    ∷ Keys.pad_slash ∷ Keys.shift_r ∷ Keys.shift_r ∷ 0 ∷ b'*' ∷ b'*' ∷ 0 ∷ Keys.alt_l ∷ Keys.alt_l
    ∷ Keys.alt_r ∷ b' ' ∷ b' ' ∷ 0 ∷ Keys.caps_lock ∷ Keys.caps_lock ∷ 0 ∷ Keys.f1 ∷ Keys.f1 ∷ 0
    ∷ Keys.f2 ∷ Keys.f2 ∷ 0 ∷ Keys.f3 ∷ Keys.f3 ∷ 0 ∷ Keys.f4 ∷ Keys.f4 ∷ 0 ∷ Keys.f5 ∷ Keys.f5 ∷ 0
    ∷ Keys.f6 ∷ Keys.f6 ∷ 0 ∷ Keys.f7 ∷ Keys.f7 ∷ 0 ∷ Keys.f8 ∷ Keys.f8 ∷ 0 ∷ Keys.f9 ∷ Keys.f9 ∷ 0
    ∷ Keys.f10 ∷ Keys.f10 ∷ 0 ∷ Keys.num_lock ∷ Keys.num_lock ∷ 0 ∷ Keys.scroll_lock
    ∷ Keys.scroll_lock ∷ 0 ∷ Keys.pad_home ∷ b'7' ∷ Keys.home ∷ Keys.pad_up ∷ b'8' ∷ Keys.up
    ∷ Keys.pad_pgup ∷ b'9' ∷ Keys.pgup ∷ Keys.pad_minus ∷ b'-' ∷ 0 ∷ Keys.pad_left ∷ b'4'
    ∷ Keys.left ∷ Keys.pad_mid ∷ b'5' ∷ 0 ∷ Keys.pad_right ∷ b'6' ∷ Keys.right ∷ Keys.pad_plus
    ∷ b'+' ∷ 0 ∷ Keys.pad_end ∷ b'1' ∷ Keys.end ∷ Keys.pad_down ∷ b'2' ∷ Keys.down ∷ Keys.pad_pgdown
    ∷ b'3' ∷ Keys.pgdown ∷ Keys.pad_ins ∷ b'0' ∷ Keys.insert ∷ Keys.pad_dot ∷ b'.' ∷ Keys.delete ∷ 0
    ∷ 0 ∷ 0 ∷ 0 ∷ 0 ∷ 0 ∷ 0 ∷ 0 ∷ 0 ∷ Keys.f11 ∷ Keys.f11 ∷ 0 ∷ Keys.f12 ∷ Keys.f12 ∷ 0 ∷ 0 ∷ 0 ∷ 0
    ∷ 0 ∷ 0 ∷ 0 ∷ 0 ∷ 0 ∷ Keys.gui_l ∷ 0 ∷ 0 ∷ Keys.gui_r ∷ 0 ∷ 0 ∷ Keys.apps ∷ 0 ∷ 0 ∷ 0 ∷ 0 ∷ 0
    ∷ 0 ∷ 0 ∷ 0 ∷ 0 ∷ 0 ∷ 0 ∷ 0 ∷ 0 ∷ 0 ∷ 0 ∷ 0 ∷ 0 ∷ 0 ∷ 0 ∷ 0 ∷ 0 ∷ 0 ∷ 0 ∷ 0 ∷ 0 ∷ 0 ∷ 0 ∷ 0 ∷ 0
    ∷ 0 ∷ 0 ∷ 0 ∷ 0 ∷ 0 ∷ 0 ∷ 0 ∷ 0 ∷ 0 ∷ 0 ∷ 0 ∷ 0 ∷ 0 ∷ 0 ∷ 0 ∷ 0 ∷ 0 ∷ 0 ∷ 0 ∷ 0 ∷ 0 ∷ 0 ∷ 0 ∷ 0
    ∷ 0 ∷ 0 ∷ 0 ∷ 0 ∷ 0 ∷ 0 ∷ 0 ∷ 0 ∷ 0 ∷ 0 ∷ 0 ∷ 0 ∷ 0 ∷ 0 ∷ 0 ∷ 0 ∷ 0 ∷ 0 ∷ 0 ∷ 0 ∷ 0 ∷ 0 ∷ 0 ∷ 0
    ∷ 0 ∷ 0 ∷ 0 ∷ 0 ∷ 0 ∷ 0 ∷ 0 ∷ 0 ∷ 0 ∷ 0 ∷ 0 ∷ 0 ∷ 0 ∷ 0 ∷ 0 ∷ 0 ∷ 0 ∷ 0 ∷ 0 ∷ 0 ∷ 0 ∷ 0 ∷ 0 ∷ 0
    ∷ 0 ∷ []
