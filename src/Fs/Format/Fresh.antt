-- ===== src/Fs/Format/Fresh.antt =====
-- A disk without a file system: what formatting makes of it, and that it is found again.
use create_an_os.Prelude.{
  ℕ, zero, suc, ◌+◌, ◌-◌, ◌^◌, ◌<◌, ◌≡◌, ◌≢◌, refl, sym, ap, ◌∙◌, arith, List, ◌∷◌, ◌++◌, Option,
  none, replicate, take, ok, read,
}
use create_an_os.Fs.Disk.{Fs, sector_size, words_bytes, inode_bytes, write_sector, minus_one}
use create_an_os.Fs.Sync.{IsLaidOut}
use create_an_os.Fs.Directory.{inode_idx, find_entry, find_block, locate, find_file}
use create_an_os.Fs.Format.{
  superblock_of, superblock_bytes, inode_of, words_in, new_superblock, clear_sectors, root_inode,
  format_disk, sys_format, load_tables, no_inodes, tables, init_fs,
}
use create_an_os.Fs.Format.Superblocks.{
  superblock_with, map_sector, new_superblock_lem, superblock_of-superblock_bytes,
}
use create_an_os.Fs.Format.Tables.{load_inodes-first}

abbrev pub full_sector : List ℕ
full_sector = replicate sector_size 0xff

-- What `sys_format` leaves, the map of the inodes being in sector `map`.
record IsFormatted (sectors map : ℕ) (disk : ℕ → List ℕ) : Type 0 where
  superblock : disk 0 ≡ superblock_bytes (superblock_with sectors map)
  inodes_used : disk map ≡ 0x1 ∷ replicate 511 0
  root : disk (map + 1) ≡ inode_bytes root_inode ++ replicate 384 0
  entries : disk (map + 17) ≡ full_sector
  more_entries : disk (map + 17 + 1) ≡ full_sector

write_sector_ne :
    (lba i : ℕ) (bytes : List ℕ) (disk : ℕ → List ℕ)
    → lba ≢ i
    → write_sector lba bytes disk i ≡ disk i
write_sector_ne lba i bytes disk h = ground arith

write_sector_self :
    (lba : ℕ) (bytes : List ℕ) (disk : ℕ → List ℕ) → write_sector lba bytes disk lba ≡ bytes
write_sector_self lba bytes disk = ground arith

clear_sectors-front :
    (left block j : ℕ) (disk : ℕ → List ℕ) → j < block → clear_sectors left block disk j ≡ disk j
unfolding clear_sectors
clear_sectors-front zero block j disk h = refl
clear_sectors-front (suc left) block j disk h =
    clear_sectors-front left (block + 1) j _ (omega arith)
    ∙ write_sector_ne block j _ disk (λ e. omega arith)

format_disk-IsFormatted :
    (sectors map : ℕ) (disk : ℕ → List ℕ)
    → 32 < map
    → IsFormatted sectors map (format_disk (superblock_with sectors map) disk)
unfolding format_disk
format_disk-IsFormatted sectors map disk h =
    let named = write_sector 0 (superblock_bytes (superblock_with sectors map)) disk in
    let cleared = clear_sectors (map + 1 - 32) 32 named in
    let root = inode_bytes root_inode ++ replicate 384 0 in
    let one : List ℕ = 0x1 ∷ replicate 511 0 in
    let two : List ℕ = 0x3 ∷ replicate 511 0 in
    let rooted = write_sector (map + 1) root cleared in
    let mapped = write_sector map one rooted in
    let used = write_sector 32 two mapped in
    let half = write_sector (map + 17) full_sector used in
    let last : (j : ℕ)
        → map + 17 + 1 ≢ j
        → format_disk (superblock_with sectors map) disk j ≡ half j =
      λ j d. write_sector_ne (map + 17 + 1) j full_sector half d in
    let before : (j : ℕ)
        → j ≢ map + 17
        → j ≢ map + 18
        → format_disk (superblock_with sectors map) disk j ≡ used j =
      λ j d d'.
        last j (λ e. d' (omega arith))
        ∙ write_sector_ne (map + 17) j full_sector used (λ e. d (sym e)) in
    record {
      superblock =
          before 0 (λ e. omega arith) (λ e. omega arith)
          ∙ write_sector_ne map 0 one rooted (λ e. omega arith)
          ∙ write_sector_ne (map + 1) 0 root cleared (λ e. omega arith)
          ∙ clear_sectors-front (map + 1 - 32) 32 0 named (omega arith);
      inodes_used =
          before map (λ e. omega arith) (λ e. omega arith)
          ∙ write_sector_ne 32 map two mapped (λ e. omega arith)
          ∙ write_sector_self map one rooted;
      root =
          before (map + 1) (λ e. omega arith) (λ e. omega arith)
          ∙ write_sector_ne 32 (map + 1) two mapped (λ e. omega arith)
          ∙ write_sector_ne map (map + 1) one rooted (λ e. omega arith)
          ∙ write_sector_self (map + 1) root cleared;
      entries = last (map + 17) (λ e. omega arith) ∙ write_sector_self (map + 17) full_sector used;
      more_entries = write_sector_self (map + 17 + 1) full_sector half;
    }

find_entry-full : (name : List ℕ) → find_entry 32 0 name full_sector ≡ ok none
unfolding find_entry inode_idx read
find_entry-full name = refl

inode_of-root : inode_of (inode_bytes root_inode ++ replicate 384 0) 0 ≡ root_inode
unfolding inode_of inode_bytes words_bytes words_in
inode_of-root = refl

-- A file system with nothing in it but its root directory, which has two sectors and no names.
pub record IsFresh (fds : List (Option ℕ)) (fs : Fs) : Type 0 where
  pub layout : IsLaidOut fs.meta fs.inode_table
  pub root : read fs.inode_table 0 ≡ ok root_inode
  pub used : fs.inode_map ≡ 0x1 ∷ replicate 7 0
  pub names : (name : List ℕ) → find_file name fs ≡ ok minus_one
  pub descriptors : fs.fds ≡ fds

find_file-full :
    (name : List ℕ) (fs : Fs)
    → read fs.inode_table 0 ≡ ok root_inode
    → fs.disk (fs.meta.data_start + 0) ≡ full_sector
    → fs.disk (fs.meta.data_start + 1) ≡ full_sector
    → find_file name fs ≡ ok minus_one
unfolding find_file locate find_block
find_file-full name fs root first second =
    rw (root, first, find_entry-full name, second, find_entry-full name) refl

load_tables-IsFresh :
    (sectors map : ℕ) (fds : List (Option ℕ)) (disk : ℕ → List ℕ)
    → 32 < map
    → IsFormatted sectors map disk
    → (fs : Fs) × (load_tables (superblock_with sectors map) fds disk ≡ ok fs)
      × (fs.disk ≡ disk)
      × IsFresh fds fs
unfolding load_tables
load_tables-IsFresh sectors map fds disk h f =
    let (table, e, size, root) = load_inodes-first 15 (map + 1) 0 disk no_inodes (omega arith) in
    let fs : Fs = tables (superblock_with sectors map) fds disk table in
    let sixteen : map + 17 - (map + 1) ≡ 16 = omega arith in
    let plain : map + 17 + 0 ≡ map + 17 = omega arith in
    let root_read : read table 0 ≡ ok root_inode =
      root ∙ ap (λ bytes. ok (inode_of bytes 0)) f.root ∙ ap ok inode_of-root in
    let rest : IsFresh fds fs = record {
      layout = record {
        maps = omega arith;
        inodes = omega arith;
        data_behind = omega arith;
        table = omega arith;
      };
      root = root_read;
      used = ap (take 8) f.inodes_used;
      names = λ name. find_file-full name fs root_read (rw plain f.entries) f.more_entries;
      descriptors = refl;
    } in
    (fs, rw (sixteen, e) refl, refl, rest)

init_fs-known :
    (sectors map later : ℕ) (fds : List (Option ℕ)) (disk : ℕ → List ℕ)
    → superblock_of (disk 0) ≡ superblock_with sectors map
    → init_fs later fds disk ≡ load_tables (superblock_with sectors map) fds disk
unfolding init_fs sys_format
init_fs-known sectors map later fds disk e = rw e refl

init_fs-unknown :
    (sectors : ℕ) (fds : List (Option ℕ)) (disk : ℕ → List ℕ)
    → (superblock_of (disk 0)).magic ≢ 0xbaba
    → init_fs sectors fds disk
      ≡ load_tables (new_superblock sectors) fds (format_disk (new_superblock sectors) disk)
unfolding init_fs sys_format
init_fs-unknown sectors fds disk h = ground arith

-- A disk without the magic number is formatted: what `init_fs` returns is laid out in order, has a
-- root directory of two sectors as its only inode in use, and has no file by any name. If this is
-- the disk of the next start, then `init_fs` finds the same tables on it, whatever size the drive
-- gives then. The drive's size is a 32-bit number.
pub init_fs-IsFresh :
    (sectors : ℕ) (fds : List (Option ℕ)) (disk : ℕ → List ℕ)
    → sectors < 2 ^ 32
    → (superblock_of (disk 0)).magic ≢ 0xbaba
    → (fs : Fs) × (init_fs sectors fds disk ≡ ok fs)
      × IsFresh fds fs
      × ((later : ℕ) → init_fs later fds fs.disk ≡ ok fs)
init_fs-IsFresh sectors fds disk h unknown =
    let map : ℕ = map_sector sectors in
    let made = format_disk-IsFormatted sectors map disk (omega arith) in
    let new_disk : ℕ → List ℕ = format_disk (superblock_with sectors map) disk in
    let (fs, e, same_disk, fresh) =
      load_tables-IsFresh sectors map fds new_disk (omega arith) made in
    let known : superblock_of (fs.disk 0) ≡ superblock_with sectors map =
      ap (λ d. superblock_of (d 0)) same_disk
      ∙ ap superblock_of made.superblock
      ∙ superblock_of-superblock_bytes sectors map h (omega arith) in
    let formatted : init_fs sectors fds disk
        ≡ load_tables (superblock_with sectors map) fds new_disk =
      init_fs-unknown sectors fds disk unknown
      ∙ ap (λ m. load_tables m fds (format_disk m disk)) (new_superblock_lem sectors) in
    let again : load_tables (superblock_with sectors map) fds fs.disk ≡ ok fs =
      ap (load_tables (superblock_with sectors map) fds) same_disk ∙ e in
    (fs, formatted ∙ e, fresh, λ later. init_fs-known sectors map later fds fs.disk known ∙ again)
