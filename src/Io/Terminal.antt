-- ===== src/Io/Terminal.antt =====
-- io/tty.h: a terminal, and the state that the terminals share. An address of video memory is its
-- number of cells from 0xc00b8000, a pointer into `in` its index there.
use create_an_os.Prelude.{ℕ, List, ◌==◌, if◌then◌else◌}

pub record Tty : Type 0 where
  pub addr : ℕ
  pub pos : ℕ
  pub input : List ℕ
  pub head : ℕ
  pub tail : ℕ
  pub cnt : ℕ

-- Video memory, and the registers behind ports 0x3d4 (the index) and 0x3d5 (the value).
pub record Console : Type 0 where
  pub ttys : List Tty
  pub current_tty : ℕ
  pub memory : ℕ → ℕ
  pub crtc : ℕ → ℕ

-- A store into memory or into a file of registers.
abbrev pub store : (ℕ → ℕ) → ℕ → ℕ → ℕ → ℕ
store f a v i = if a == i then v else f i
