-- ===== src/Video/Cursor.antt =====
-- Where the cursor is after `sys_set_cursor_pos`, in the terminal and on the screen.
use create_an_os.Prelude.{
  ℕ, ◌+◌, ◌*◌, ◌/◌, ◌%◌, ◌^◌, ◌<◌, ◌≡◌, read-set_self, arith, ◌==◌, if◌then◌else◌, set, ok, read,
  lt-of_read, write-ok,
}
use create_an_os.Io.Terminal.{Tty, Console, store}
use create_an_os.Video.{sys_set_cursor_pos}

-- The registers that show the cursor of `tty` at `position`.
abbrev pub pointed : ℕ → Tty → (ℕ → ℕ) → ℕ → ℕ
pointed position tty crtc =
    let true_position = (tty.addr + position) % 2 ^ 32 in
    store (store crtc 0xe (true_position / 2 ^ 8 % 2 ^ 8)) 0xf (true_position % 2 ^ 8)

-- The console with the cursor of terminal `n` at `position`.
abbrev pub placed : ℕ → ℕ → Tty → Console → Console
placed n position tty con = record con {
  ttys = set con.ttys n (record tty { pos = position });
  crtc = if n == con.current_tty then pointed position tty con.crtc else con.crtc;
}

pub sys_set_cursor_pos_lem :
    (n position : ℕ) (tty : Tty) (con : Console)
    → read con.ttys n ≡ ok tty
    → sys_set_cursor_pos n position con ≡ ok (placed n position tty con)
unfolding sys_set_cursor_pos
sys_set_cursor_pos_lem n position tty con h =
    ground
      (arith, write-ok con.ttys n (record tty { pos = position }) (lt-of_read con.ttys n tty h))

-- What the registers show: a position below 65536 that is split in two bytes is whole.
pointed_lem :
    (position : ℕ) (tty : Tty) (crtc : ℕ → ℕ)
    → tty.addr + position < 65536
    → pointed position tty crtc 0xe * 256 + pointed position tty crtc 0xf ≡ tty.addr + position
pointed_lem position tty crtc h = omega arith

-- Moving the cursor of a terminal records it there; of the current terminal it also moves the
-- cursor on the screen, to the cell counted from the start of video memory, and of another it
-- leaves the cursor on the screen where it is.
pub sys_set_cursor_pos-shows :
    (n position : ℕ) (tty : Tty) (con : Console)
    → read con.ttys n ≡ ok tty
    → tty.addr + position < 65536
    → (con' : Console) × (sys_set_cursor_pos n position con ≡ ok con')
      × (read con'.ttys n ≡ ok (record tty { pos = position }))
      × (con'.crtc 0xe * 256 + con'.crtc 0xf ≡ (
          if n == con.current_tty then tty.addr + position else con.crtc 0xe * 256 + con.crtc 0xf))
      × (con'.memory ≡ con.memory)
sys_set_cursor_pos-shows n position tty con h small = (
  placed n position tty con,
  sys_set_cursor_pos_lem n position tty con h,
  read-set_self con.ttys n (record tty { pos = position }) (lt-of_read con.ttys n tty h),
  ground (arith, pointed_lem position tty con.crtc small),
  λ i. con.memory,
)
