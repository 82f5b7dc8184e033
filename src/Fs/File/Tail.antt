-- ===== src/Fs/File/Tail.antt =====
-- The last block of a write that goes over the end of a block: `sys_do_write` copies it from `data`,
-- not from `p`, where the rest of the bytes is.
use create_an_os.Prelude.{ℕ, ◌+◌, ◌/◌, ◌%◌, ◌^◌, ◌≤◌, ◌<◌, ◌≡◌, ◌≢◌, List, length, ok, read}
use create_an_os.Fs.Disk.{data_sector, Fs, Inode}
use create_an_os.Fs.Sync.{IsLaidOut}

-- A write that starts in a block and ends in the next, both of which the file has.
pub record InBlocks (rwpointer sector sector' : ℕ) (inode : Inode) (bytes : List ℕ) (fs : Fs)
    : Type 0 where
  pub layout : IsLaidOut fs.meta fs.inode_table
  pub over : 512 ≤ rwpointer % 512 + length bytes
  pub inside : rwpointer % 512 + length bytes < 1024
  pub has_blocks : rwpointer / 512 + 1 < inode.block_count
  pub blocks : inode.block_count ≤ 29
  pub at_sector : read inode.direct_pointers (rwpointer / 512) ≡ ok sector
  pub next_sector : read inode.direct_pointers (rwpointer / 512 + 1) ≡ ok sector'
  pub apart : sector ≢ sector'
  pub in_data : fs.meta.data_start + sector < 2 ^ 32
  pub next_in_data : fs.meta.data_start + sector' < 2 ^ 32
  pub whole : length (fs.disk (data_sector fs.meta sector)) ≡ 512
  pub whole_next : length (fs.disk (data_sector fs.meta sector')) ≡ 512
