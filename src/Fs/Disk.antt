-- ===== src/Fs/Disk.antt =====
-- fs/fs.h, and the parts of fs/fs.c that keep the tables of memory and disk alike. `read_sector` and
-- `write_sector` are the ports of an ATA disk: here the disk is a list of bytes for each sector. A
-- pointer into a table is its index there.
use create_an_os.Prelude.{
  ℕ, zero, suc, ◌+◌, ◌-◌, ◌/◌, ◌%◌, ◌^◌, List, [], ◌∷◌, ◌++◌, Option, ◌==◌, if◌then◌else◌, length,
  replicate, Outcome, ok, ◌>>=◌, read,
}

pub record Superblock : Type 0 where
  pub magic : ℕ
  pub name : List ℕ
  pub inode_count : ℕ
  pub sector_count : ℕ
  pub sector_map_start : ℕ
  pub inode_map_start : ℕ
  pub inode_table_start : ℕ
  pub data_start : ℕ

-- `kind` is the C field `type`.
pub record Inode : Type 0 where
  pub kind : ℕ
  pub size : ℕ
  pub block_count : ℕ
  pub direct_pointers : List ℕ

-- `inode` is a null pointer where the entry is not in use.
pub record FileDesc : Type 0 where
  pub inode : Option ℕ
  pub rwpointer : ℕ
  pub rwcount : ℕ

-- The tables, the disk, and the descriptors of the current process.
pub record Fs : Type 0 where
  pub meta : Superblock
  pub file_desc_table : List FileDesc
  pub inode_table : List Inode
  pub inode_map : List ℕ
  pub disk : ℕ → List ℕ
  pub fds : List (Option ℕ)

abbrev pub sector_size : ℕ
sector_size = 512

-- `-1` as a `uint32_t`.
abbrev pub minus_one : ℕ
minus_one = 2 ^ 32 - 1

-- The disk after `write_sector`.
abbrev pub write_sector : ℕ → List ℕ → (ℕ → List ℕ) → ℕ → List ℕ
write_sector lba bytes disk i = if lba == i then bytes else disk i

-- The sector of a block pointer: `meta.data_start + blocks[i]` as a `uint32_t`.
abbrev pub data_sector : Superblock → ℕ → ℕ
data_sector meta pointer = (meta.data_start + pointer) % 2 ^ 32

-- A word as memory holds it.
abbrev pub word_bytes : ℕ → List ℕ
word_bytes w = w % 256 ∷ w / 2 ^ 8 % 256 ∷ w / 2 ^ 16 % 256 ∷ w / 2 ^ 24 % 256 ∷ []

unfoldable pub words_bytes : List ℕ → List ℕ
words_bytes [] = []
words_bytes (w ∷ words) = word_bytes w ++ words_bytes words

unfoldable pub inode_bytes : Inode → List ℕ
unfolding words_bytes
inode_bytes inode =
    words_bytes (inode.kind ∷ inode.size ∷ inode.block_count ∷ inode.direct_pointers)

-- Four inodes from `inode_table[i]` on, as one sector.
unfoldable pub inode_sector : List Inode → ℕ → Outcome (List ℕ)
unfolding inode_bytes
inode_sector inode_table i = do
  n0 ← read inode_table i
  n1 ← read inode_table (i + 1)
  n2 ← read inode_table (i + 2)
  n3 ← read inode_table (i + 3)
  ok (inode_bytes n0 ++ (inode_bytes n1 ++ (inode_bytes n2 ++ inode_bytes n3)))

-- The loop of `sync_inode` from `block` and `inode_table[i]` on, with `left` blocks left.
unfoldable pub sync_table : ℕ → ℕ → ℕ → Fs → Outcome Fs
sync_table zero block i fs = ok fs
sync_table (suc left) block i fs = inode_sector fs.inode_table i >>= λ bytes.
    sync_table left (block + 1) (i + 4) (record fs { disk = write_sector block bytes fs.disk })

unfoldable pub sync_inode : Fs → Outcome Fs
sync_inode fs =
    let map = fs.inode_map ++ replicate (sector_size - length fs.inode_map) 0 in
    sync_table (fs.meta.data_start - fs.meta.inode_table_start) fs.meta.inode_table_start 0
      (record fs { disk = write_sector fs.meta.inode_map_start map fs.disk })
