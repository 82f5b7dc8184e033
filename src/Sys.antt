-- ===== src/Sys.antt =====
-- sys/: interrupt frames and interrupts (int.h, int.c), system calls (syscall.c), the timer (timer.c)
-- and what programs are linked with (user/).
pub mod Frame
pub mod Selectors
pub mod Int
pub mod Timer
pub mod Syscall
pub mod User
