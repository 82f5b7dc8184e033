-- ===== src/Video/Cells.antt =====
-- What the loops over video memory leave in each cell.
use create_an_os.Prelude.{ℕ, zero, suc, ◌+◌, ◌≡◌, arith, ltb, leb, if◌then◌else◌, ◌&&◌}
use create_an_os.Io.Terminal.{store}
use create_an_os.Video.{screen_width, blank, move_up, clear_from, rolled}

pub move_up_lem :
    (addr rounds i : ℕ) (memory : ℕ → ℕ) (j : ℕ)
    → move_up addr rounds i memory j ≡ (
        if leb (addr + i) j && ltb j (addr + i + rounds)
        then memory (j + screen_width)
        else memory j)
unfolding move_up
move_up_lem addr zero i memory j = ground arith
move_up_lem addr (suc rounds) i memory j = ground (
  arith,
  move_up_lem addr rounds (i + 1) (store memory (addr + i) (memory (addr + i + screen_width))) j,
)

pub clear_from_lem :
    (addr rounds i : ℕ) (memory : ℕ → ℕ) (j : ℕ)
    → clear_from addr rounds i memory j
      ≡ (if leb (addr + i) j && ltb j (addr + i + rounds) then blank else memory j)
unfolding clear_from
clear_from_lem addr zero i memory j = ground arith
clear_from_lem addr (suc rounds) i memory j =
    ground (arith, clear_from_lem addr rounds (i + 1) (store memory (addr + i) blank) j)

-- Rolling moves each line of the screen one up, blanks the last, and changes no cell outside.
pub rolled_lem :
    (addr : ℕ) (memory : ℕ → ℕ) (j : ℕ)
    → rolled addr memory j ≡ (
        if leb (addr + 1920) j && ltb j (addr + 2000)
        then blank
        else if leb addr j && ltb j (addr + 1920)
        then memory (j + 80)
        else memory j)
unfolding rolled
rolled_lem addr memory j =
    rw
      (clear_from_lem addr 80 1920 (move_up addr 1920 0 memory) j, move_up_lem addr 1920 0 memory j)
      (ground arith)
