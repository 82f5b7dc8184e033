-- ===== src/Fs/Format/Superblocks.antt =====
-- The superblock that formatting writes: where its parts are, and that it is read back.
use create_an_os.Prelude.{ℕ, ◌+◌, ◌-◌, ◌*◌, ◌/◌, ◌%◌, ◌^◌, ◌<◌, ◌≡◌, refl, arith, [], ◌∷◌}
use create_an_os.Fs.Disk.{Superblock, words_bytes}
use create_an_os.Fs.Format.{new_superblock, superblock_bytes, superblock_of}

-- The superblock whose map of the inodes is in sector `map`.
abbrev pub superblock_with : ℕ → ℕ → Superblock
superblock_with sectors map = record {
  magic = 0xbaba;
  name = b'B' ∷ b'a' ∷ b'n' ∷ b'a' ∷ b'n' ∷ b'a' ∷ 0 ∷ 0 ∷ [];
  inode_count = 64;
  sector_count = sectors;
  sector_map_start = 32;
  inode_map_start = map;
  inode_table_start = map + 1;
  data_start = map + 17;
}

abbrev pub map_sector : ℕ → ℕ
map_sector sectors = 32 + (sectors + 2 ^ 32 - 1) % 2 ^ 32 / 512 + 1

pub new_superblock_lem :
    (sectors : ℕ) → new_superblock sectors ≡ superblock_with sectors (map_sector sectors)
unfolding new_superblock
new_superblock_lem sectors =
    let map : ℕ = map_sector sectors in
    let inodes : map + 0 + 1 ≡ map + 1 = omega arith in
    let behind : map + 0 + 1 + 15 + 1 ≡ map + 17 = omega arith in rw (behind, inodes) refl

word_back :
    (w : ℕ)
    → w < 2 ^ 32
    → w % 256 + w / 2 ^ 8 % 256 * 2 ^ 8 + w / 2 ^ 16 % 256 * 2 ^ 16 + w / 2 ^ 24 % 256 * 2 ^ 24 ≡ w
word_back w h = omega arith

pub superblock_of-superblock_bytes :
    (sectors map : ℕ)
    → sectors < 2 ^ 32
    → map + 17 < 2 ^ 32
    → superblock_of (superblock_bytes (superblock_with sectors map)) ≡ superblock_with sectors map
unfolding superblock_of superblock_bytes words_bytes
superblock_of-superblock_bytes sectors map h hm =
    rw
      (
        word_back sectors h,
        word_back map (omega arith),
        word_back (map + 1) (omega arith),
        word_back (map + 17) hm,
      )
      refl
