-- ===== src/Fs/Directory/Unlink.antt =====
-- `sys_do_unlink` marks the entry as unused and then takes the number of the inode from it.
use create_an_os.Prelude.{
  ℕ, ◌+◌, ◌*◌, ◌/◌, ◌%◌, ◌^◌, ◌≤◌, ◌<◌, ◌≡◌, refl, ap, ◌∙◌, arith, List, some, length, ok, fault,
  read, read-fault,
}
use create_an_os.Fs.Disk.{Fs, minus_one, word_bytes}
use create_an_os.Fs.File.Copy.{copy_into-copy_from}
use create_an_os.Fs.Directory.{inode_idx, set_inode_idx, locate, unlink_entry, sys_do_unlink}

-- An entry of which the number is set.
inode_idx-set_inode_idx :
    (i idx : ℕ) (dirs : List ℕ)
    → idx < 2 ^ 32
    → i * 16 + 4 ≤ length dirs
    → (dirs' : List ℕ) × (set_inode_idx i idx dirs ≡ ok dirs') × (inode_idx i dirs' ≡ ok idx)
unfolding set_inode_idx inode_idx read
inode_idx-set_inode_idx i idx dirs small inside =
    let (dirs', c) = copy_into-copy_from (i * 16) (word_bytes idx) dirs inside in
    let first : read dirs' (i * 16) ≡ ok (idx % 256) =
      ap (read dirs') (omega arith) ∙ c.placed 0 (omega arith) in
    let value : idx % 256
          + idx / 2 ^ 8 % 256 * 2 ^ 8
          + idx / 2 ^ 16 % 256 * 2 ^ 16
          + idx / 2 ^ 24 % 256 * 2 ^ 24
        ≡ idx =
      omega arith in
    (
      dirs',
      c.runs,
      rw
          (
            first,
            c.placed 1 (omega arith),
            c.placed 2 (omega arith),
            c.placed 3 (omega arith),
            value,
          )
          refl,
    )

-- The call finds a file, in a whole sector of the directory and with a table of 64 inodes, but
-- then looks for inode 0xffffffff: whatever the file and its entry are, it leaves the table of
-- inodes.
pub sys_do_unlink-fault :
    (name : List ℕ) (block i : ℕ) (fs : Fs)
    → locate name fs ≡ ok (some (block, i))
    → i < 32
    → length (fs.disk (fs.meta.data_start + block)) ≡ 512
    → length fs.inode_table ≡ 64
    → sys_do_unlink name fs ≡ fault
unfolding sys_do_unlink unlink_entry
sys_do_unlink-fault name block i fs found entry whole table =
    let (dirs, e, e') =
      inode_idx-set_inode_idx i minus_one (fs.disk (fs.meta.data_start + block)) (omega arith)
        (omega (arith, whole)) in
    rw (found, e, e', read-fault fs.inode_table minus_one (omega (arith, table))) refl
