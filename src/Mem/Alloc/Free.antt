-- ===== src/Mem/Alloc/Free.antt =====
-- `sys_free_phy_page` computes the bit of a page as `addr - 0x300`, since the division binds
-- tighter than the subtraction; the page's own bit is `(addr - 0x300000) / 0x1000`.
use create_an_os.Prelude.{ℕ, ◌+◌, ◌-◌, ◌*◌, ◌/◌, ◌%◌, ◌^◌, ◌<◌, ◌≡◌, arith, length, fault}
use create_an_os.Common.Bitmap.Laws.{set_bit-fault}
use create_an_os.Mem.Alloc.{Memory, map_bytes, user_space_start, sys_free_phy_page}
use create_an_os.Mem.Alloc.Counter.{page_count}

-- No page that the allocator can hand out can be given back: for each of them the bit lies far
-- past the end of the bitmap, and the call writes there.
pub sys_free_phy_page-fault :
    (page : ℕ) (m : Memory)
    → page < page_count
    → length m.bitmap ≡ map_bytes
    → sys_free_phy_page (user_space_start + 0x1000 * page) m ≡ fault
unfolding sys_free_phy_page
sys_free_phy_page-fault page m h e = rw (
    set_bit-fault m.bitmap
      ((user_space_start + 0x1000 * page + 2 ^ 32 - user_space_start / 0x1000) % 2 ^ 32) 0
      (omega arith))
