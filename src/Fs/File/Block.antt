-- ===== src/Fs/File/Block.antt =====
-- Writing inside of one block of a file, and reading it back.
use create_an_os.Prelude.{
  ℕ, suc, ◌+◌, ◌/◌, ◌%◌, ◌^◌, max, ◌≤◌, ◌<◌, ◌≡◌, ◌≢◌, refl, ap, arith, List, Option, none, some,
  true, false, leb, lt→ltb, length, set, length-set, Outcome, ok, read, write-ok, lt-of_read,
}
use create_an_os.Fs.Disk.{data_sector, Fs, FileDesc, Inode, minus_one}
use create_an_os.Fs.Sync.{IsLaidOut, SameFrom, sync_inode-SameFrom}
use create_an_os.Fs.File.{grow, finish_write, with_file}
use create_an_os.Fs.File.Copy.{Copied}

-- File `fd` of the current process is open, at inode `n` of `fs`.
pub record IsOpen (fd k n : ℕ) (desc : FileDesc) (inode : Inode) (fs : Fs) : Type 0 where
  pub fd_in : fd < 4
  pub entry : read fs.fds fd ≡ ok (some k)
  pub descriptor : read fs.file_desc_table k ≡ ok desc
  pub used : desc.inode ≡ some n
  pub here : read fs.inode_table n ≡ ok inode

pub with_file-IsOpen :
    (fd k n : ℕ) (desc : FileDesc) (inode : Inode) (fs : Fs)
    (body : FileDesc → ℕ → Outcome (ℕ × Fs))
    → IsOpen fd k n desc inode fs
    → with_file fd fs body ≡ body desc n
unfolding with_file
with_file-IsOpen fd k n desc inode fs body o =
    let small : leb 4 fd ≡ false = ground (arith, o.fd_in) in
    rw (small, o.entry, o.descriptor)
      (ap (λ (e : Option ℕ). elim e [ none ↦ ok (minus_one, fs) | some m ↦ body desc m ]) o.used)

pub grow-enough :
    (rounds block_end n : ℕ) (inode : Inode) (fs : Fs)
    → read fs.inode_table n ≡ ok inode
    → block_end < inode.block_count
    → grow (suc rounds) block_end n fs ≡ ok (true, fs)
unfolding grow
grow-enough rounds block_end n inode fs h enough =
    rw (h, lt→ltb block_end inode.block_count enough) refl

-- The inode after a write up to `end`.
abbrev pub resized : ℕ → Inode → Inode
resized end inode = record inode { size = max inode.size end }

pub finish_write_lem :
    (n end : ℕ) (inode : Inode) (fs : Fs)
    → read fs.inode_table n ≡ ok inode
    → IsLaidOut fs.meta fs.inode_table
    → (fs' : Fs) × (finish_write n end fs ≡ ok fs')
      × SameFrom fs.meta.data_start
          (record fs { inode_table = set fs.inode_table n (resized end inode) })
          fs'
unfolding finish_write
finish_write_lem n end inode fs h v =
    let inside = lt-of_read fs.inode_table n inode h in
    let next : Fs = record fs { inode_table = set fs.inode_table n (resized end inode) } in
    let (fs', e, s) = sync_inode-SameFrom next (record {
      maps = v.maps;
      inodes = v.inodes;
      data_behind = v.data_behind;
      table = omega (arith, v.table, length-set fs.inode_table n (resized end inode));
    }) in
    (fs', rw (h, write-ok fs.inode_table n (resized end inode) inside) e, s)

-- A write within one block of a file that has the block.
pub record InBlock (n rwpointer sector : ℕ) (inode : Inode) (bytes : List ℕ) (fs : Fs)
    : Type 0 where
  pub layout : IsLaidOut fs.meta fs.inode_table
  pub inside : rwpointer % 512 + length bytes < 512
  pub has_block : rwpointer / 512 < inode.block_count
  pub blocks : inode.block_count ≤ 29
  pub at_sector : read inode.direct_pointers (rwpointer / 512) ≡ ok sector
  pub whole : length (fs.disk (data_sector fs.meta sector)) ≡ 512
  pub small : inode.size < 2 ^ 32
  pub in_data : fs.meta.data_start + sector < 2 ^ 32

-- The file system after it: the file's inode has its new size, and its sector holds the bytes.
pub record Written (n rwpointer sector : ℕ) (inode : Inode) (bytes : List ℕ) (fs fs' : Fs)
    : Type 0 where
  pub buffer : List ℕ
  pub copied : Copied (rwpointer % 512) bytes (fs.disk (data_sector fs.meta sector)) buffer
  pub tables : fs' ≡ record fs {
    inode_table = set fs.inode_table n (resized (rwpointer + length bytes) inode);
    disk = fs'.disk;
  }
  pub sector_now : fs'.disk (data_sector fs.meta sector) ≡ buffer
  pub others :
      (j : ℕ) → fs.meta.data_start ≤ j → j ≢ fs.meta.data_start + sector → fs'.disk j ≡ fs.disk j
