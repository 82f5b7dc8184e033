-- ===== src/Mem/Alloc.antt =====
-- mem/alloc.c: a bitmap over the physical pages of user space, and `mp`, the page at which the
-- next search starts. Addresses are `uint32_t`.
pub mod Counter
pub mod Free
use create_an_os.Prelude.{
  ℕ, zero, suc, ◌+◌, ◌-◌, ◌*◌, ◌/◌, ◌%◌, ◌^◌, List, ◌==◌, if◌then◌else◌, replicate, Outcome, ok,
  hang, ◌>>=◌,
}
use create_an_os.Common.Bitmap.{get_bit, set_bit}

abbrev pub user_space_start : ℕ
user_space_start = 0x300000

-- `0x1d00 / 8`, the bytes of the bitmap and the rounds of a search.
abbrev pub map_bytes : ℕ
map_bytes = 0x1d00 / 8

pub record Memory : Type 0 where
  pub bitmap : List ℕ
  pub mp : ℕ

unfoldable pub init_memory : Memory
init_memory = record { bitmap = replicate map_bytes 0; mp = 0 }

-- Marks page `mp` and returns its address.
unfoldable pub take_page : Memory → Outcome (ℕ × Memory)
take_page m = do
  bitmap ← set_bit m.bitmap m.mp 1
  ok ((user_space_start + 0x1000 * m.mp) % 2 ^ 32, record m { bitmap = bitmap })

-- The search with `rounds` rounds left: `for(...;++i, ++mp)`, then `while(1);`.
unfoldable pub search_page : ℕ → Memory → Outcome (ℕ × Memory)
unfolding take_page
search_page zero m = hang
search_page (suc rounds) m =
    let next = search_page rounds (record m { mp = m.mp + 1 }) in
    get_bit m.bitmap m.mp >>= λ used. if used == 0 then take_page m else next

unfoldable pub sys_alloc_phy_page : Memory → Outcome (ℕ × Memory)
sys_alloc_phy_page m = search_page map_bytes m

-- `set_bit(mem_bitmap, addr - (USER_SPACE_START) / 0x1000, 0)`: the division binds tighter than
-- the subtraction, which wraps at 32 bits.
unfoldable pub sys_free_phy_page : ℕ → Memory → Outcome Memory
sys_free_phy_page addr m = do
  bitmap ← set_bit m.bitmap ((addr + 2 ^ 32 - user_space_start / 0x1000) % 2 ^ 32) 0
  ok (record m { bitmap = bitmap })
