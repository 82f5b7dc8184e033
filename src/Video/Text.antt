-- ===== src/Video/Text.antt =====
-- What `sys_putchar_with_color` and `sys_puts_with_color` do to a terminal.
use native.Mathlib.Nat.{add-zero}
use create_an_os.Prelude.{
  ◌&&◌, ℕ, zero, suc, ◌+◌, ◌-◌, ◌*◌, ◌%◌, ◌^◌, ◌≤◌, ◌<◌, ◌≡◌, refl, ap, ◌∙◌, ◌≢◌, arith, List, [],
  ◌∷◌, bit_or, ltb, leb, ◌==◌, if◌then◌else◌, length, get_or, ok, ◌>>=◌, read, lt-of_read,
  read-set_self, lt→ltb, le→ltb_false, dec_lt,
}
use create_an_os.Prelude.Bits.{bit_or-onto}
use create_an_os.Io.Terminal.{Tty, Console, store}
use create_an_os.Video.{
  Drawn, draw, rolled, roll_while, sys_roll_screen, sys_set_cursor_pos, sys_putchar_with_color,
  sys_puts_with_color,
}
use create_an_os.Video.Cursor.{placed, sys_set_cursor_pos_lem}

-- The cursor is where the code's own bound wants it, and no `uint16_t` position wraps.
pub record Fits (tty : Tty) : Type 0 where
  pub pos_in : tty.pos < tty.addr + 2000
  pub addr_in : tty.addr ≤ 2000

-- A console after a character that leaves the cursor at `d.pos`: the screen is rolled if it must.
abbrev pub settled : ℕ → Tty → Drawn → Console → Console
settled n tty d con =
    if ltb d.pos (tty.addr + 2000)
    then placed n d.pos tty (record con { memory = d.memory })
    else placed n (d.pos - 80) tty (record con { memory = rolled tty.addr d.memory })

roll_while-stop :
    (fuel n addr pos : ℕ) (con : Console)
    → pos < addr + 2000
    → roll_while (suc fuel) n addr pos con ≡ ok (pos, con)
unfolding roll_while
roll_while-stop fuel n addr pos con h = rw (lt→ltb pos (addr + 2000) h)

roll_while-once :
    (fuel n pos : ℕ) (tty : Tty) (con : Console)
    → read con.ttys n ≡ ok tty
    → tty.addr + 2000 ≤ pos
    → pos < tty.addr + 2080
    → roll_while (suc (suc fuel)) n tty.addr pos con
      ≡ ok (pos - 80, record con { memory = rolled tty.addr con.memory })
unfolding roll_while sys_roll_screen
roll_while-once fuel n pos tty con h above below =
    rw (
      le→ltb_false pos (tty.addr + 2000) above,
      h,
      lt→ltb (pos - 80) (tty.addr + 2000) (omega arith),
    )

pub draw-lt :
    (addr c color pos : ℕ) (memory : ℕ → ℕ)
    → pos < addr + 2000
    → addr ≤ 2000
    → (draw addr c color pos memory).pos < addr + 2080
unfolding draw
draw-lt addr c color pos memory h a = ground arith

settle :
    (n : ℕ) (tty : Tty) (d : Drawn) (con : Console)
    → read con.ttys n ≡ ok tty
    → d.pos < tty.addr + 2080
    → (roll_while (d.pos + 1) n tty.addr d.pos (record con { memory = d.memory }) >>= λ (pos, con').
        sys_set_cursor_pos n pos con')
      ≡ ok (settled n tty d con)
settle n tty d con h below =
    let drawn : Console = record con { memory = d.memory } in
    let scrolled : Console = record con { memory = rolled tty.addr d.memory } in
    elim (dec_lt d.pos (tty.addr + 2000)) [
      | yes p ↦
          let fuel : d.pos + 1 ≡ suc d.pos = omega arith in
          rw (fuel, roll_while-stop d.pos n tty.addr d.pos drawn p, lt→ltb _ _ p)
            (sys_set_cursor_pos_lem n d.pos tty drawn h)
      | no p ↦
          let fuel : d.pos + 1 ≡ suc (suc (d.pos - 1)) = omega arith in
          rw
            (
              fuel,
              roll_while-once (d.pos - 1) n d.pos tty drawn h (omega arith) below,
              le→ltb_false d.pos (tty.addr + 2000) (omega arith),
            )
            (sys_set_cursor_pos_lem n (d.pos - 80) tty scrolled h)
    ]

-- A character on a terminal whose cursor is in range: the call returns, after one roll at most.
pub sys_putchar_with_color_lem :
    (n c color : ℕ) (tty : Tty) (con : Console)
    → read con.ttys n ≡ ok tty
    → Fits tty
    → sys_putchar_with_color n c color con
      ≡ ok (settled n tty (draw tty.addr c color tty.pos con.memory) con)
unfolding sys_putchar_with_color
sys_putchar_with_color_lem n c color tty con h f = rw h (
    settle n tty (draw tty.addr c color tty.pos con.memory) con h
      (draw-lt tty.addr c color tty.pos con.memory f.pos_in f.addr_in))

-- Bytes that are drawn as they are: no newline, tab or backspace.
pub record IsPrintable (c : ℕ) : Type 0 where
  pub byte : c < 256
  pub no_newline : c ≢ b'\n'
  pub no_tab : c ≢ b'\t'
  pub no_backspace : c ≢ 8

abbrev pub IsText : List ℕ → Type 0
IsText [] = Unit {0}
IsText (c ∷ s) = IsPrintable c × IsText s

-- The cell of a character: its code in the low byte, its color in the high one.
abbrev pub cell : ℕ → ℕ → ℕ
cell c color = c + color * 256

draw_printable :
    (addr c color pos : ℕ) (memory : ℕ → ℕ)
    → IsPrintable c
    → color < 256
    → pos < 65535
    → draw addr c color pos memory
      ≡ record { pos = pos + 1; memory = store memory (addr + pos) (cell c color) }
unfolding draw
draw_printable addr c color pos memory v hc hp =
    let glyph : bit_or c (color * 256) % 2 ^ 16 ≡ cell c color =
      omega (arith, bit_or-onto 8 c color v.byte, v.byte) in
    let next : (pos + 1) % 2 ^ 16 ≡ pos + 1 = omega arith in
    rw (glyph, next) (ground (arith, v.no_newline, v.no_tab, v.no_backspace))

-- The console after a printable character that stays above the bound.
abbrev printed : ℕ → Tty → ℕ → ℕ → Console → Console
printed n tty c color con =
    placed n (tty.pos + 1) tty
      (record con { memory = store con.memory (tty.addr + tty.pos) (cell c color) })

print_lem :
    (n c color : ℕ) (tty : Tty) (con : Console)
    → read con.ttys n ≡ ok tty
    → IsPrintable c
    → color < 256
    → tty.addr ≤ 2000
    → tty.pos + 1 < tty.addr + 2000
    → sys_putchar_with_color n c color con ≡ ok (printed n tty c color con)
print_lem n c color tty con h v hc a room =
    sys_putchar_with_color_lem n c color tty con h (omega arith)
    ∙ rw (
      draw_printable tty.addr c color tty.pos con.memory v hc (omega arith),
      lt→ltb (tty.pos + 1) (tty.addr + 2000) room,
    )

get_or-cons :
    (c : ℕ) (s : List ℕ) (k : ℕ) → get_or (c ∷ s) k 0 ≡ (if k == 0 then c else get_or s (k - 1) 0)
get_or-cons c s zero = refl
get_or-cons c s (suc k) = let same : suc k - 1 ≡ k = omega arith in rw same (ground arith)

-- The cells of a text from those of its tail.
rest_of_cells :
    (c : ℕ) (s : List ℕ) (color : ℕ) (tty : Tty) (con : Console) (j : ℕ)
    → (if leb (tty.addr + (tty.pos + 1)) j && ltb j (tty.addr + (tty.pos + 1) + length s)
        then cell (get_or s (j - (tty.addr + (tty.pos + 1))) 0) color
        else store con.memory (tty.addr + tty.pos) (cell c color) j)
      ≡ (if leb (tty.addr + tty.pos) j && ltb j (tty.addr + tty.pos + suc (length s))
          then cell (get_or (c ∷ s) (j - (tty.addr + tty.pos)) 0) color
          else con.memory j)
rest_of_cells c s color tty con j =
    let same : j - (tty.addr + (tty.pos + 1)) ≡ j - (tty.addr + tty.pos) - 1 = omega arith in
    rw (same, get_or-cons c s (j - (tty.addr + tty.pos))) (ground arith)

-- A text without newline, tab and backspace, in a color of one byte, on a terminal that there is and
-- whose first cell is 2000 at most: if it ends above the bound at which the screen rolls, then it goes
-- into consecutive cells from the cursor on, in order and in the given color; no other cell changes,
-- and the cursor ends behind it.
pub sys_puts_with_color_lem :
    (n : ℕ) (s : List ℕ) (color : ℕ) (tty : Tty) (con : Console)
    → read con.ttys n ≡ ok tty
    → IsText s
    → color < 256
    → tty.addr ≤ 2000
    → tty.pos + length s < tty.addr + 2000
    → (con' : Console) × (sys_puts_with_color n s color con ≡ ok con')
      × (read con'.ttys n ≡ ok (record tty { pos = tty.pos + length s }))
      × ((j : ℕ)
          → con'.memory j ≡ (
              if leb (tty.addr + tty.pos) j && ltb j (tty.addr + tty.pos + length s)
              then cell (get_or s (j - (tty.addr + tty.pos)) 0) color
              else con.memory j))
unfolding sys_puts_with_color
sys_puts_with_color_lem n [] color tty con h text hc a room =
    (con, refl, rw add-zero h, λ j. ground arith)
sys_puts_with_color_lem n (c ∷ s) color tty con h text hc a room =
    let next : Tty = record tty { pos = tty.pos + 1 } in
    let (con', e, e', cells) =
      sys_puts_with_color_lem n s color next (printed n tty c color con)
        (read-set_self con.ttys n next (lt-of_read con.ttys n tty h)) text.1 hc a (omega arith) in
    (
      con',
      rw (print_lem n c color tty con h text.0 hc a (omega arith)) e,
      e' ∙ ap (λ p. ok (record tty { pos = p })) (omega arith),
      λ j. cells j ∙ rest_of_cells c s color tty con j,
    )
