-- ===== src/Fs/Sectors.antt =====
-- fs/fs.c, `alloc_sector`: the first free bit of the sector map. Each sector of the map has 512 bits
-- in use.
pub mod Fresh
use create_an_os.Prelude.{
  ℕ, zero, suc, ◌+◌, ◌-◌, ◌*◌, ◌==◌, if◌then◌else◌, List, Option, none, some, Outcome, ok, ◌>>=◌,
}
use create_an_os.Common.Bitmap.{get_bit, set_bit}
use create_an_os.Fs.Disk.{Fs, sector_size, minus_one, write_sector}

-- The inner loop, from bit `i` on with `left` bits left.
unfoldable pub find_bit : ℕ → ℕ → List ℕ → Outcome (Option ℕ)
find_bit zero i sector_map = ok none
find_bit (suc left) i sector_map =
    let next = find_bit left (i + 1) sector_map in
    get_bit sector_map i >>= λ used. if used == 0 then ok (some i) else next

-- The outer loop, from `block` on with `left` blocks left.
unfoldable pub search_sector : ℕ → ℕ → Fs → Outcome (ℕ × Fs)
search_sector zero block fs = ok (minus_one, fs)
search_sector (suc left) block fs = find_bit sector_size 0 (fs.disk block) >>= λ found. elim found [
  | none ↦ search_sector left (block + 1) fs
  | some i ↦ set_bit (fs.disk block) i 1 >>= λ sector_map. ok (
    (block - fs.meta.sector_map_start) * sector_size + i,
    record fs { disk = write_sector block sector_map fs.disk },
  )
]

unfoldable pub alloc_sector : Fs → Outcome (ℕ × Fs)
alloc_sector fs =
    search_sector (fs.meta.inode_map_start - fs.meta.sector_map_start) fs.meta.sector_map_start fs
