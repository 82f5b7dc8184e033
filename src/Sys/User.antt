-- ===== src/Sys/User.antt =====
-- sys/user/: what user programs call (interface.c), and the library of the kernel and its programs
-- (utils.c).
pub mod Interface
pub mod Utils
