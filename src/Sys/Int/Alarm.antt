-- ===== src/Sys/Int/Alarm.antt =====
-- A message of the kernel on the terminal that is shown, from its first cell on.
use create_an_os.Prelude.{
  ℕ, ◌+◌, ◌-◌, ◌≤◌, ◌<◌, ◌≡◌, ◌∙◌, arith, List, ◌&&◌, leb, ltb, if◌then◌else◌, length, get_or, ok,
  read, set, set-set, lt-of_read, read-set_self, write-ok,
}
use create_an_os.Io.Terminal.{Tty, Console}
use create_an_os.Video.{sys_set_cursor_coord}
use create_an_os.Video.Cursor.{placed, sys_set_cursor_pos_lem}
use create_an_os.Video.Text.{IsText, cell, sys_puts_with_color_lem}
use create_an_os.Fs.Directory.{c_string}
use create_an_os.Sys.Int.{alarm}

-- The console with the cursor of the terminal that is shown at its first cell.
abbrev home : Tty → Console → Console
home tty con =
    placed con.current_tty 0 (record tty { pos = 0 })
      (record con { ttys = set con.ttys con.current_tty (record tty { pos = 0 }) })

home_lem :
    (tty : Tty) (con : Console)
    → read con.ttys con.current_tty ≡ ok tty
    → sys_set_cursor_coord con.current_tty 0 0 con ≡ ok (home tty con)
unfolding sys_set_cursor_coord
home_lem tty con h =
    let inside = lt-of_read con.ttys con.current_tty tty h in
    let moved : Tty = record tty { pos = 0 } in
    rw (h, write-ok con.ttys con.current_tty moved inside)
      (sys_set_cursor_pos_lem con.current_tty 0 moved
        (record con { ttys = set con.ttys con.current_tty moved })
        (read-set_self con.ttys con.current_tty moved inside))

at_home :
    (tty : Tty) (con : Console)
    → read con.ttys con.current_tty ≡ ok tty
    → read (home tty con).ttys con.current_tty ≡ ok (record tty { pos = 0 })
at_home tty con h =
    let moved : Tty = record tty { pos = 0 } in
    let inside = lt-of_read con.ttys con.current_tty tty h in
    rw (set-set con.ttys con.current_tty moved moved)
      (read-set_self con.ttys con.current_tty moved inside)

-- The cell `j` of a text that starts at the first cell of a terminal.
cells_at :
    (text : List ℕ) (tty : Tty) (con con' : Console) (j : ℕ)
    → j < length text
    → con'.memory (tty.addr + j) ≡ (
        if leb (tty.addr + 0) (tty.addr + j) && ltb (tty.addr + j) (tty.addr + 0 + length text)
        then cell (get_or text (tty.addr + j - (tty.addr + 0)) 0) 0x24
        else con.memory (tty.addr + j))
    → con'.memory (tty.addr + j) ≡ cell (get_or text j 0) 0x24
cells_at text tty con con' j below e =
    let same : tty.addr + j - (tty.addr + 0) ≡ j = omega arith in e ∙ rw same (ground arith)

-- The message fills the terminal from its first cell on, if it is shorter than the screen and the
-- terminal's cells start no later than those of the second.
pub alarm_lem :
    (str text : List ℕ) (tty : Tty) (con : Console)
    → c_string str ≡ ok text
    → IsText text
    → length text < 2000
    → read con.ttys con.current_tty ≡ ok tty
    → tty.addr ≤ 2000
    → (con' : Console) × (alarm str con ≡ ok con')
      × ((j : ℕ) → j < length text → con'.memory (tty.addr + j) ≡ cell (get_or text j 0) 0x24)
unfolding alarm
alarm_lem str text tty con e plain short h a =
    let moved : Tty = record tty { pos = 0 } in
    let (con', e', at, cells) =
      sys_puts_with_color_lem con.current_tty text 0x24 moved (home tty con) (at_home tty con h)
        plain (omega arith) a (omega arith) in
    (
      con',
      rw (home_lem tty con h, e) e',
      λ j below. cells_at text tty (home tty con) con' j below (cells (tty.addr + j)),
    )
