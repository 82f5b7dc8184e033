-- ===== src/Fs/Open.antt =====
-- fs/fs.c: `create_file`, `sys_do_open` and `sys_listdir`.
pub mod Close
mod Tests
use create_an_os.Prelude.{
  ℕ, zero, suc, ◌+◌, ◌*◌, ◌%◌, ◌^◌, bit_and, List, [], ◌∷◌, ◌++◌, Option, none, some, Bool, not,
  ◌&&◌, leb, ◌==◌, if◌then◌else◌, replicate, Outcome, ok, hang, ◌>>=◌, read, write,
}
use create_an_os.Common.Bitmap.{get_bit, set_bit}
use create_an_os.Fs.Disk.{Fs, FileDesc, Inode, minus_one, write_sector, sync_inode}
use create_an_os.Fs.Directory.{inode_idx, set_inode_idx, filename, split_name, find_file}

-- A file with no blocks.
abbrev pub new_inode : Inode
new_inode = record { kind = 2; size = 0; block_count = 0; direct_pointers = replicate 29 0 }

-- The first entry that is not in use, from `i` on with `left` entries left.
unfoldable pub free_entry : ℕ → ℕ → List ℕ → Outcome (Option ℕ)
free_entry zero i dirs = ok none
free_entry (suc left) i dirs =
    let next = free_entry left (i + 1) dirs in
    inode_idx i dirs >>= λ idx. if idx == minus_one then ok (some i) else next

-- The first inode that is not in use, from `j` on with `left` left.
unfoldable pub free_inode : ℕ → ℕ → List ℕ → Outcome (Option ℕ)
free_inode zero j map = ok none
free_inode (suc left) j map =
    let next = free_inode left (j + 1) map in
    get_bit map j >>= λ used. if used == 0 then ok (some j) else next

-- Inode `j` for entry `i` of `block`; `dirs` is the buffer with the name in it.
unfoldable pub fill_entry : ℕ → ℕ → ℕ → List ℕ → Fs → Outcome (ℕ × Fs)
fill_entry block i j dirs fs = set_bit fs.inode_map j 1 >>= λ map.
    write fs.inode_table j new_inode >>= λ inodes. set_inode_idx i j dirs >>= λ dirs'.
    sync_inode (record fs {
      inode_map = map;
      inode_table = inodes;
      disk = write_sector (fs.meta.data_start + block) dirs' fs.disk;
    })
    >>= λ fs'. ok (j, fs')

-- The loop of `create_file` from `block` on with `left` blocks left. Where an entry is free but no
-- inode, it goes on with the next block.
unfoldable pub create_in : ℕ → ℕ → List ℕ → Fs → Outcome (ℕ × Fs)
create_in zero block name fs = ok (minus_one, fs)
create_in (suc left) block name fs =
    let dirs = fs.disk (fs.meta.data_start + block) in
    free_entry 32 0 dirs >>= λ place. elim place [
      | none ↦ create_in left (block + 1) name fs
      | some i ↦ split_name i name dirs >>= λ dirs'. free_inode 64 0 fs.inode_map >>= λ found.
          elim found [
            | none ↦ create_in left (block + 1) name fs
            | some j ↦ fill_entry block i j dirs' fs
          ]
    ]

unfoldable pub create_file : List ℕ → Fs → Outcome (ℕ × Fs)
create_file name fs = read fs.inode_table 0 >>= λ root. create_in root.block_count 0 name fs

-- The first descriptor of the process, and the first entry of the table, that is not in use: where
-- there is none the code does not return.
unfoldable pub free_fd : ℕ → List (Option ℕ) → Outcome ℕ
free_fd i [] = hang
free_fd i (none ∷ fds) = ok i
free_fd i (some k ∷ fds) = free_fd (i + 1) fds

unfoldable pub free_desc : ℕ → List FileDesc → Outcome ℕ
free_desc i [] = hang
free_desc i (desc ∷ table) =
    let next = free_desc (i + 1) table in elim desc.inode [ none ↦ ok i | some n ↦ next ]

-- `int32_t existing`: an inode's number, or negative.
abbrev pub is_negative : ℕ → Bool
is_negative n = leb (2 ^ 31) n

-- The inode that is opened: it is there, or it is created; `minus_one` where the call returns -1.
unfoldable pub open_inode : List ℕ → ℕ → Fs → Outcome (ℕ × Fs)
open_inode name flag fs = find_file name fs >>= λ existing.
    let missing = is_negative existing in
    let created = create_file name fs in
    if bit_and flag 1 == 0 && missing
    then ok (minus_one, fs)
    else if bit_and flag 2 == 0 && not missing
    then ok (minus_one, fs)
    else if missing
    then created
    else ok (existing, fs)

unfoldable pub sys_do_open : List ℕ → ℕ → Fs → Outcome (ℕ × Fs)
sys_do_open name flag fs = free_fd 0 fs.fds >>= λ fp. free_desc 0 fs.file_desc_table >>= λ fdi.
    open_inode name flag fs >>= λ (n, fs₁).
    let opened : Outcome (ℕ × Fs) = read fs₁.file_desc_table fdi >>= λ desc.
    read fs₁.inode_table n >>= λ inode.
    write fs₁.file_desc_table fdi (record {
      inode = some n;
      rwpointer = if bit_and flag 4 == 0 then 0 else inode.size;
      rwcount = (desc.rwcount + 1) % 2 ^ 32;
    })
    >>= λ table. write fs₁.fds fp (some fdi) >>= λ fds.
        ok (fp, record fs₁ { file_desc_table = table; fds = fds }) in
    if is_negative n then ok (minus_one, fs₁) else opened

-- `dirent_t` of sys/user/interface.h.
pub record Dirent : Type 0 where
  pub fullname : List ℕ
  pub size : ℕ
  pub space : ℕ

-- The entries of one block, from entry `i` on with `left` left.
unfoldable pub list_entries : ℕ → ℕ → List ℕ → Fs → Outcome (List Dirent)
list_entries zero i dirs fs = ok []
list_entries (suc left) i dirs fs = list_entries left (i + 1) dirs fs >>= λ rest.
    inode_idx i dirs >>= λ idx.
    let listed : Outcome (List Dirent) = filename i dirs >>= λ name.
    read fs.inode_table idx >>= λ inode.
    ok (record { fullname = name; size = inode.size; space = inode.block_count * 0x200 } ∷ rest) in
    if idx == minus_one then ok rest else listed

unfoldable pub list_blocks : ℕ → ℕ → Fs → Outcome (List Dirent)
list_blocks zero block fs = ok []
list_blocks (suc left) block fs =
    list_entries 32 0 (fs.disk (fs.meta.data_start + block)) fs >>= λ here.
    list_blocks left (block + 1) fs >>= λ rest. ok (here ++ rest)

-- What goes to the caller's array; the call returns its length.
unfoldable pub sys_listdir : Fs → Outcome (List Dirent)
sys_listdir fs = read fs.inode_table 0 >>= λ root. list_blocks root.block_count 0 fs
