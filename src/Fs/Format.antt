-- ===== src/Fs/Format.antt =====
-- fs/fs.c, `sys_format` and `init_fs`: an empty file system, and the tables as they are read from a
-- disk. `sectors` is what `get_sectors` returns. Parts of a sector are reinterpreted as the code's
-- `memcpy` does it, in words of four bytes.
pub mod Superblocks
pub mod Tables
pub mod Fresh
mod Tests
use create_an_os.Prelude.{
  ℕ, zero, suc, ◌+◌, ◌-◌, ◌*◌, ◌/◌, ◌%◌, ◌^◌, List, [], ◌∷◌, ◌++◌, Option, none, take, drop, get_or,
  replicate, length, ◌==◌, if◌then◌else◌, Outcome, ok, ◌>>=◌, write,
}
use create_an_os.Fs.Disk.{
  Superblock, Inode, FileDesc, Fs, sector_size, word_bytes, words_bytes, inode_bytes, write_sector,
}

-- The word at `at` of a sector, and `n` words from there on.
abbrev pub word_of : List ℕ → ℕ → ℕ
word_of bytes at =
    get_or bytes at 0
    + get_or bytes (at + 1) 0 * 2 ^ 8
    + get_or bytes (at + 2) 0 * 2 ^ 16
    + get_or bytes (at + 3) 0 * 2 ^ 24

unfoldable pub words_in : ℕ → ℕ → List ℕ → List ℕ
words_in zero at bytes = []
words_in (suc n) at bytes = word_of bytes at ∷ words_in n (at + 4) bytes

-- `memcpy(FS_BUFFER, &meta, sizeof(meta))` over a cleared sector.
unfoldable pub superblock_bytes : Superblock → List ℕ
superblock_bytes meta =
    word_bytes meta.magic
    ++ (meta.name
        ++ (words_bytes (
              meta.inode_count ∷ meta.sector_count ∷ meta.sector_map_start ∷ meta.inode_map_start
              ∷ meta.inode_table_start ∷ meta.data_start ∷ [])
            ++ replicate 476 0))

-- `memcpy(&meta, FS_BUFFER, sizeof(meta))`
unfoldable pub superblock_of : List ℕ → Superblock
superblock_of bytes = record {
  magic = word_of bytes 0;
  name = take 8 (drop 4 bytes);
  inode_count = word_of bytes 12;
  sector_count = word_of bytes 16;
  sector_map_start = word_of bytes 20;
  inode_map_start = word_of bytes 24;
  inode_table_start = word_of bytes 28;
  data_start = word_of bytes 32;
}

-- An inode at `at` of a sector.
unfoldable pub inode_of : List ℕ → ℕ → Inode
inode_of bytes at = record {
  kind = word_of bytes at;
  size = word_of bytes (at + 4);
  block_count = word_of bytes (at + 8);
  direct_pointers = words_in 29 (at + 12) bytes;
}

-- The layout for a disk of `sectors` sectors.
unfoldable pub new_superblock : ℕ → Superblock
new_superblock sectors =
    let sector_map_start : ℕ = 32 in
    let inode_map_start : ℕ = sector_map_start + (sectors + 2 ^ 32 - 1) % 2 ^ 32 / 512 + 1 in
    let inode_table_start : ℕ = inode_map_start + (64 - 1) / 512 + 1 in
    record {
      magic = 0xbaba;
      name = b'B' ∷ b'a' ∷ b'n' ∷ b'a' ∷ b'n' ∷ b'a' ∷ 0 ∷ 0 ∷ [];
      inode_count = 64;
      sector_count = sectors;
      sector_map_start = sector_map_start;
      inode_map_start = inode_map_start;
      inode_table_start = inode_table_start;
      data_start = inode_table_start + (64 - 1) / 4 + 1;
    }

-- The loop that clears sectors, from `block` on with `left` left.
unfoldable pub clear_sectors : ℕ → ℕ → (ℕ → List ℕ) → ℕ → List ℕ
clear_sectors zero block disk = disk
clear_sectors (suc left) block disk =
    clear_sectors left (block + 1) (write_sector block (replicate sector_size 0) disk)

abbrev pub root_inode : Inode
root_inode = record {
  kind = 1;
  size = 1024;
  block_count = 2;
  direct_pointers = 0 ∷ 1 ∷ replicate 27 0;
}

-- The writes of `sys_format` for the superblock `meta`.
unfoldable pub format_disk : Superblock → (ℕ → List ℕ) → ℕ → List ℕ
format_disk meta disk =
    let named = write_sector 0 (superblock_bytes meta) disk in
    let cleared =
      clear_sectors (meta.inode_table_start - meta.sector_map_start) meta.sector_map_start named in
    let rooted =
      write_sector meta.inode_table_start (inode_bytes root_inode ++ replicate 384 0) cleared in
    let mapped = write_sector meta.inode_map_start (0x1 ∷ replicate 511 0) rooted in
    let used = write_sector meta.sector_map_start (0x3 ∷ replicate 511 0) mapped in
    let half = write_sector meta.data_start (replicate sector_size 0xff) used in
    write_sector (meta.data_start + 1) (replicate sector_size 0xff) half

unfoldable pub sys_format : ℕ → (ℕ → List ℕ) → Superblock × (ℕ → List ℕ)
sys_format sectors disk = let meta = new_superblock sectors in (meta, format_disk meta disk)

-- `read_sector(block, (uint8_t*)&inode_table[i])`: four inodes from `i` on.
unfoldable pub load_sector : List ℕ → ℕ → List Inode → Outcome (List Inode)
load_sector bytes i table = do
  table ← write table i (inode_of bytes 0)
  table ← write table (i + 1) (inode_of bytes 128)
  table ← write table (i + 2) (inode_of bytes 256)
  write table (i + 3) (inode_of bytes 384)

-- The loop over the blocks of the inode table.
unfoldable pub load_inodes : ℕ → ℕ → ℕ → (ℕ → List ℕ) → List Inode → Outcome (List Inode)
load_inodes zero block i disk table = ok table
load_inodes (suc left) block i disk table =
    load_sector (disk block) i table >>= load_inodes left (block + 1) (i + 4) disk

-- The tables that the code clears with `memset` first.
abbrev pub no_inodes : List Inode
no_inodes =
    replicate 64 (record { kind = 0; size = 0; block_count = 0; direct_pointers = replicate 29 0 })

abbrev pub no_files : List FileDesc
no_files = replicate 64 (record { inode = none; rwpointer = 0; rwcount = 0 })

-- The tables for a superblock; `fds` are the descriptors of the current process.
abbrev pub tables : Superblock → List (Option ℕ) → (ℕ → List ℕ) → List Inode → Fs
tables meta fds disk inode_table = record {
  meta = meta;
  file_desc_table = no_files;
  inode_table = inode_table;
  inode_map = take 8 (disk meta.inode_map_start);
  disk = disk;
  fds = fds;
}

unfoldable pub load_tables : Superblock → List (Option ℕ) → (ℕ → List ℕ) → Outcome Fs
load_tables meta fds disk =
    load_inodes (meta.data_start - meta.inode_table_start) meta.inode_table_start 0 disk no_inodes
    >>= λ table. ok (tables meta fds disk table)

unfoldable pub init_fs : ℕ → List (Option ℕ) → (ℕ → List ℕ) → Outcome Fs
init_fs sectors fds disk =
    let meta = superblock_of (disk 0) in
    let (new_meta, new_disk) = sys_format sectors disk in
    if meta.magic == 0xbaba then load_tables meta fds disk else load_tables new_meta fds new_disk
