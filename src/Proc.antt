-- ===== src/Proc.antt =====
-- proc/: the process table, fork, exec, exit and wait (proc.h, proc.c) and the scheduler
-- (schedule.c).
pub mod Table
pub mod Schedule
pub mod Wait
pub mod Fork
pub mod Exit
pub mod Exec
mod Tests
