-- ===== src/Fs/Sync.antt =====
-- `sync_inode` writes the tables only: no sector of the data changes.
use create_an_os.Prelude.{
  ℕ, zero, suc, ◌+◌, ◌-◌, ◌*◌, ◌≤◌, ◌<◌, ◌≡◌, refl, ◌∙◌, arith, List, ◌++◌, replicate, length, ok,
  read-some,
}
use create_an_os.Fs.Disk.{
  Fs, Inode, Superblock, sector_size, inode_bytes, inode_sector, sync_table, sync_inode,
  write_sector,
}

-- The sectors of the disk in their order: maps, then inodes, then data; and enough inodes.
pub record IsLaidOut (meta : Superblock) (inode_table : List Inode) : Type 0 where
  pub maps : meta.sector_map_start ≤ meta.inode_map_start
  pub inodes : meta.inode_map_start < meta.inode_table_start
  pub data_behind : meta.inode_table_start ≤ meta.data_start
  pub table : (meta.data_start - meta.inode_table_start) * 4 ≤ length inode_table

-- `fs'` is `fs` but for sectors in front of `from`.
pub record SameFrom (from : ℕ) (fs fs' : Fs) : Type 0 where
  pub tables : fs' ≡ record fs { disk = fs'.disk }
  pub sectors : (j : ℕ) → from ≤ j → fs'.disk j ≡ fs.disk j

inode_sector-ok :
    (inode_table : List Inode) (i : ℕ)
    → i + 4 ≤ length inode_table
    → (bytes : List ℕ) × (inode_sector inode_table i ≡ ok bytes)
unfolding inode_sector
inode_sector-ok inode_table i h =
    let (n0, e0) = read-some inode_table i (omega arith) in
    let (n1, e1) = read-some inode_table (i + 1) (omega arith) in
    let (n2, e2) = read-some inode_table (i + 2) (omega arith) in
    let (n3, e3) = read-some inode_table (i + 3) (omega arith) in
    (
      inode_bytes n0 ++ (inode_bytes n1 ++ (inode_bytes n2 ++ inode_bytes n3)),
      rw (e0, e1, e2, e3) refl,
    )

sync_table_lem :
    (left block i from : ℕ) (fs : Fs)
    → i + left * 4 ≤ length fs.inode_table
    → block + left ≤ from
    → (fs' : Fs) × (sync_table left block i fs ≡ ok fs') × SameFrom from fs fs'
unfolding sync_table
sync_table_lem zero block i from fs h below =
    (fs, refl, record { tables = refl; sectors = λ j low. refl })
sync_table_lem (suc left) block i from fs h below =
    let (bytes, e) = inode_sector-ok fs.inode_table i (omega arith) in
    let next : Fs = record fs { disk = write_sector block bytes fs.disk } in
    let (fs', e', s) =
      sync_table_lem left (block + 1) (i + 4) from next (omega arith) (omega arith) in
    (fs', rw e e', record { tables = s.tables; sectors = λ j low. s.sectors j low ∙ ground arith })

pub sync_inode-SameFrom :
    (fs : Fs)
    → IsLaidOut fs.meta fs.inode_table
    → (fs' : Fs) × (sync_inode fs ≡ ok fs') × SameFrom fs.meta.data_start fs fs'
unfolding sync_inode
sync_inode-SameFrom fs v =
    let map = fs.inode_map ++ replicate (sector_size - length fs.inode_map) 0 in
    let mapped : Fs = record fs { disk = write_sector fs.meta.inode_map_start map fs.disk } in
    let (fs', e, s) =
      sync_table_lem (fs.meta.data_start - fs.meta.inode_table_start) fs.meta.inode_table_start 0
        fs.meta.data_start mapped (omega (arith, v.table)) (omega (arith, v.data_behind)) in
    (
      fs',
      e,
      record {
        tables = s.tables;
        sectors = λ j low. s.sectors j low ∙ ground (arith, v.inodes, v.data_behind);
      },
    )
