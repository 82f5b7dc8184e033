-- ===== src/Fs/Directory.antt =====
-- fs/fs.c: names and the root directory. A directory sector is an array of 32 entries of 16 bytes:
-- the number of an inode, eight bytes of base name and four of extension. An entry in `FS_BUFFER` is
-- reached by its offset there, so a name that does not fit its field runs on into what follows.
pub mod Names
pub mod Split
pub mod Overrun
pub mod Unlink
mod Tests
use create_an_os.Prelude.{
  ℕ, zero, suc, ◌+◌, ◌-◌, ◌*◌, ◌/◌, ◌%◌, ◌^◌, bit_and, min, List, [], ◌∷◌, ◌++◌, Option, none, some,
  Bool, true, false, ◌&&◌, ltb, leb, ◌==◌, if◌then◌else◌, length, take, drop, replicate, Outcome,
  ok, hang, fault, ◌>>=◌, read, write,
}
use create_an_os.Common.Bitmap.{get_bit, set_bit}
use create_an_os.Fs.Disk.{Fs, FileDesc, Inode, minus_one, word_bytes, write_sector, sync_inode}
use create_an_os.Fs.File.{copy_into, copy_from}

-- Where entry `i` has its fields.
abbrev pub base_at : ℕ → ℕ
base_at i = i * 16 + 4

abbrev pub ext_at : ℕ → ℕ
ext_at i = i * 16 + 12

-- `dirs[i].inode_idx`
unfoldable pub inode_idx : ℕ → List ℕ → Outcome ℕ
inode_idx i dirs = do
  b0 ← read dirs (i * 16)
  b1 ← read dirs (i * 16 + 1)
  b2 ← read dirs (i * 16 + 2)
  b3 ← read dirs (i * 16 + 3)
  ok (b0 + b1 * 2 ^ 8 + b2 * 2 ^ 16 + b3 * 2 ^ 24)

unfoldable pub set_inode_idx : ℕ → ℕ → List ℕ → Outcome (List ℕ)
set_inode_idx i idx dirs = copy_into (i * 16) (word_bytes idx) dirs

-- The string that starts `bytes`; there is none without a terminator.
unfoldable pub c_string : List ℕ → Outcome (List ℕ)
c_string [] = fault
c_string (c ∷ bytes) =
    let rest = c_string bytes in if c == 0 then ok [] else (rest >>= λ s. ok (c ∷ s))

-- A string in `char filename[16]`.
unfoldable pub in_filename : List ℕ → Outcome (List ℕ)
in_filename s = if ltb (length s) 16 then ok s else fault

-- `strcpy` of the base name, and `strcat` of a dot and the extension if there is one.
unfoldable pub filename : ℕ → List ℕ → Outcome (List ℕ)
filename i dirs = c_string (drop (base_at i) dirs) >>= λ base. in_filename base >>= λ _.
    read dirs (ext_at i) >>= λ first.
    let with_ext : Outcome (List ℕ) =
      c_string (drop (ext_at i) dirs) >>= λ ext. in_filename (base ++ b'.' ∷ ext) in
    if first == 0 then ok base else with_ext

-- The last dot of a name, `i` being the index of its first character.
unfoldable pub last_dot : ℕ → Option ℕ → List ℕ → Option ℕ
last_dot i dot [] = dot
last_dot i dot (c ∷ name) = last_dot (i + 1) (if c == b'.' then some i else dot) name

-- The two branches of `split_name`, for a name with no dot and for one with its last dot at `dot`.
unfoldable pub split_plain : ℕ → List ℕ → List ℕ → Outcome (List ℕ)
split_plain i name dirs = copy_into (base_at i) (take 7 name) dirs >>= λ d₁.
    write d₁ (base_at i + 7) 0 >>= λ d₂.
    write d₂ (base_at i + length name) 0 >>= λ d₃. write d₃ (ext_at i) 0

unfoldable pub split_dotted : ℕ → ℕ → List ℕ → List ℕ → Outcome (List ℕ)
split_dotted i dot name dirs =
    let ext = take 3 (drop (dot + 1) name) in
    copy_into (base_at i) (take (min dot 7) name) dirs >>= λ d₁.
    write d₁ (base_at i + 7) 0 >>= λ d₂. write d₂ (base_at i + dot) 0 >>= λ d₃.
    copy_into (ext_at i) ext d₃ >>= λ d₄.
    write d₄ (ext_at i + 3) 0 >>= λ d₅. write d₅ (ext_at i + length ext) 0

-- `split_name(name, dirs[i].base, dirs[i].ext)`
unfoldable pub split_name : ℕ → List ℕ → List ℕ → Outcome (List ℕ)
split_name i name dirs = elim (last_dot 0 none name) [
  | none ↦ split_plain i name dirs
  | some dot ↦ split_dotted i dot name dirs
]

-- `strcmp(s, t) == 0`
unfoldable pub same_string : List ℕ → List ℕ → Bool
same_string [] [] = true
same_string [] (c ∷ t) = false
same_string (b ∷ s) [] = false
same_string (b ∷ s) (c ∷ t) = b == c && same_string s t

-- The inner loop of `find_file` and `sys_do_unlink`, from entry `i` on with `left` entries left.
unfoldable pub find_entry : ℕ → ℕ → List ℕ → List ℕ → Outcome (Option ℕ)
find_entry zero i name dirs = ok none
find_entry (suc left) i name dirs =
    let next = find_entry left (i + 1) name dirs in
    inode_idx i dirs >>= λ idx.
    let compare_name : Outcome (Option ℕ) =
      filename i dirs >>= λ full. if same_string full name then ok (some i) else next in
    if idx == minus_one then next else compare_name

-- The outer loop, from `block` on with `left` blocks left: the block and the entry.
unfoldable pub find_block : ℕ → ℕ → List ℕ → Fs → Outcome (Option (ℕ × ℕ))
find_block zero block name fs = ok none
find_block (suc left) block name fs =
    find_entry 32 0 name (fs.disk (fs.meta.data_start + block)) >>= λ found. elim found [
      | none ↦ find_block left (block + 1) name fs
      | some i ↦ ok (some (block, i))
    ]

unfoldable pub locate : List ℕ → Fs → Outcome (Option (ℕ × ℕ))
locate name fs = read fs.inode_table 0 >>= λ root. find_block root.block_count 0 name fs

-- `find_file(name).inode_idx`
unfoldable pub find_file : List ℕ → Fs → Outcome ℕ
find_file name fs = locate name fs >>= λ place. elim place [
  | none ↦ ok minus_one
  | some (block, i) ↦ inode_idx i (fs.disk (fs.meta.data_start + block))
]

unfoldable pub sys_do_getsize : List ℕ → Fs → Outcome ℕ
sys_do_getsize name fs = find_file name fs >>= λ idx.
    let size : Outcome ℕ = read fs.inode_table idx >>= λ inode. ok inode.size in
    if idx == minus_one then ok minus_one else size

-- The loop over `inode->direct_pointers` that gives sectors back, `left` of them from `j` on.
unfoldable pub free_sectors : ℕ → ℕ → List ℕ → Fs → Outcome Fs
free_sectors zero j pointers fs = ok fs
free_sectors (suc left) j pointers fs = read pointers j >>= λ sector.
    let block = fs.meta.sector_map_start + sector / 512 in
    set_bit (fs.disk block) (sector % 512) 0 >>= λ map.
    free_sectors left (j + 1) pointers (record fs { disk = write_sector block map fs.disk })

-- What `sys_do_unlink` does with entry `i` of `block`: the inode is looked up by the number that was
-- just overwritten.
unfoldable pub unlink_entry : ℕ → ℕ → Fs → Outcome Fs
unlink_entry block i fs =
    set_inode_idx i minus_one (fs.disk (fs.meta.data_start + block)) >>= λ dirs.
    let fs₁ : Fs = record fs { disk = write_sector (fs.meta.data_start + block) dirs fs.disk } in
    inode_idx i dirs >>= λ idx. read fs.inode_table idx >>= λ inode.
    set_bit fs.inode_map idx 0 >>= λ map.
    free_sectors inode.block_count 0 inode.direct_pointers (record fs₁ { inode_map = map })

unfoldable pub sys_do_unlink : List ℕ → Fs → Outcome (ℕ × Fs)
sys_do_unlink name fs = locate name fs >>= λ place. elim place [
  | none ↦ ok (minus_one, fs)
  | some (block, i) ↦ unlink_entry block i fs >>= λ fs'. ok (0, fs')
]
