-- ===== src/Video/Frame.antt =====
-- Any character on a terminal: what the call keeps, and which cells it can reach.
use create_an_os.Prelude.{
  ℕ, ◌+◌, ◌-◌, ◌*◌, ◌≤◌, ◌<◌, ◌≡◌, refl, ◌≢◌, ◌⊎◌, inl, inr, arith, ltb, ok, read, lt-of_read,
  read-set_self, read-set_ne, Bool-cases,
}
use create_an_os.Io.Terminal.{Tty, Console}
use create_an_os.Video.{Drawn, draw, sys_putchar_with_color}
use create_an_os.Video.Cells.{rolled_lem}
use create_an_os.Video.Text.{Fits, settled, draw-lt, sys_putchar_with_color_lem}

-- What one character on terminal `n` may change: its cursor, which stays in range, and the cells
-- from its first up to the bound of the code. The registers are left out.
pub record Printed (n : ℕ) (tty : Tty) (con con' : Console) : Type 0 where
  pub pos : ℕ
  pub own : read con'.ttys n ≡ ok (record tty { pos = pos })
  pub in_range : pos < tty.addr + 2000
  pub others : (m : ℕ) → n ≢ m → read con'.ttys m ≡ read con.ttys m
  pub current : con'.current_tty ≡ con.current_tty
  pub cells : (j : ℕ) → (j < tty.addr) ⊎ (2 * tty.addr + 2000 ≤ j) → con'.memory j ≡ con.memory j

draw-outside :
    (addr c color pos : ℕ) (memory : ℕ → ℕ) (j : ℕ)
    → pos < addr + 2000
    → (j < addr) ⊎ (2 * addr + 2000 ≤ j)
    → (draw addr c color pos memory).memory j ≡ memory j
unfolding draw
draw-outside addr c color pos memory j h out = ground arith

settled-Printed :
    (n : ℕ) (tty : Tty) (d : Drawn) (con : Console)
    → read con.ttys n ≡ ok tty
    → d.pos < tty.addr + 2080
    → ((j : ℕ) → (j < tty.addr) ⊎ (2 * tty.addr + 2000 ≤ j) → d.memory j ≡ con.memory j)
    → Printed n tty con (settled n tty d con)
settled-Printed n tty d con h below keeps = elim (Bool-cases (ltb d.pos (tty.addr + 2000))) [
  | inl p ↦ rw p (record {
    pos = d.pos;
    own = read-set_self con.ttys n (record tty { pos = d.pos }) (lt-of_read con.ttys n tty h);
    in_range = ground arith;
    others = λ m ne. read-set_ne con.ttys n m (record tty { pos = d.pos }) ne;
    current = refl;
    cells = keeps;
  })
  | inr p ↦ rw p (record {
    pos = d.pos - 80;
    own = read-set_self con.ttys n (record tty { pos = d.pos - 80 }) (lt-of_read con.ttys n tty h);
    in_range = ground arith;
    others = λ m ne. read-set_ne con.ttys n m (record tty { pos = d.pos - 80 }) ne;
    current = refl;
    cells = λ j out. ground (arith, rolled_lem tty.addr d.memory j, keeps j out);
  })
]

-- Any character and color on a terminal whose cursor is in range: the call returns, the cursor is
-- in range again, nothing else of that terminal and nothing of another changes, and only cells from
-- the terminal's first up to the code's bound, the position `addr + SCREEN_SIZE` counted from the
-- terminal's first cell, can change.
pub sys_putchar_with_color-Printed :
    (n c color : ℕ) (tty : Tty) (con : Console)
    → read con.ttys n ≡ ok tty
    → Fits tty
    → (con' : Console) × (sys_putchar_with_color n c color con ≡ ok con') × Printed n tty con con'
sys_putchar_with_color-Printed n c color tty con h f =
    let d = draw tty.addr c color tty.pos con.memory in
    (
      settled n tty d con,
      sys_putchar_with_color_lem n c color tty con h f,
      settled-Printed n tty d con h (draw-lt tty.addr c color tty.pos con.memory f.pos_in f.addr_in)
          (λ j out. draw-outside tty.addr c color tty.pos con.memory j f.pos_in out),
    )
