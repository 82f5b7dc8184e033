-- ===== src/Io.antt =====
-- io/: the keyboard's byte queue (kb.c) and the terminals (tty.c). `Terminal` has the state of
-- tty.h, which video/ works on too.
pub mod Kb
pub mod Terminal
pub mod Keys
pub mod Keymap
pub mod Tty
pub mod Driver
pub mod Syscalls
mod Tests
