-- ===== src/Mem/Boot.antt =====
-- mem/paging.c, `init_paging`: the page tables that the kernel starts with. The registration of the
-- fault handler stands in sys/int.c's table; the loading of cr3 and the moves of the stack pointers
-- are instructions.
pub mod Translation
mod Tests
use create_an_os.Prelude.{
  ℕ, zero, suc, ◌+◌, ◌*◌, ◌/◌, ◌&&◌, bit_or, leb, ltb, if◌then◌else◌, replicate, Outcome, ok, ◌>>=◌,
}
use create_an_os.Common.Bitmap.{set_bit}
use create_an_os.Io.Terminal.{store}
use create_an_os.Mem.Paging.{Frames, CopyMap, frame_count, page_table_start, page_vir_to_phy}

-- A loop that fills a table from entry `i` on with pages from `addr` on, `left` entries being left.
unfoldable pub fill_table : ℕ → ℕ → ℕ → ℕ → (ℕ → ℕ) → ℕ → ℕ
fill_table zero i addr base_pte word = word
fill_table (suc left) i addr base_pte word =
    fill_table left (i + 1) (addr + 0x1000) base_pte
      (store word (base_pte + 4 * i) (bit_or addr 0b11))

-- `memset(base_pde, 0, 0x3000)`, and the two entries for the kernel.
unfoldable pub kernel_directory : (ℕ → ℕ) → ℕ → ℕ
kernel_directory word =
    let base_pde = page_table_start in
    let cleared = λ (a : ℕ). if leb base_pde a && ltb a (base_pde + 0x3000) then 0 else word a in
    let low =
      store cleared (base_pde + 4 * 768) (bit_or (page_vir_to_phy (base_pde + 0x1000)) 0b11) in
    store low (base_pde + 4 * 769) (bit_or (page_vir_to_phy (base_pde + 0x2000)) 0b11)

unfoldable pub init_paging : (ℕ → ℕ) → Outcome (Frames × CopyMap)
init_paging word = set_bit (replicate (frame_count / 8) 0) 0 1 >>= λ bitmap.
    set_bit bitmap 1 1 >>= λ bitmap. set_bit bitmap 2 1 >>= λ bitmap.
    let first = fill_table 256 0 0 (page_table_start + 0x1000) (kernel_directory word) in
    let second = fill_table 512 0 0x100000 (page_table_start + 0x2000) first in
    ok (record { page_bitmap = bitmap; word = second }, replicate 128 (0, 0))
