-- ===== src/Mem.antt =====
-- mem/: physical pages for user space (alloc.c), page frames and address spaces (paging.c), and
-- segment descriptors (gdt.c).
pub mod Alloc
pub mod Paging
pub mod Fault
pub mod Boot
pub mod Copy
pub mod Cleanup
pub mod Gdt
mod Tests
