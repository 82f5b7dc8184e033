-- ===== src/Program.antt =====
-- program/: what user programs compute between their system calls.
pub mod Dir
pub mod Shell
