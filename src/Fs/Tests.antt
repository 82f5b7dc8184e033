-- ===== src/Fs/Tests.antt =====
-- The file system at a concrete disk.
use create_an_os.Prelude.{
  ℕ, zero, suc, ◌<◌, ◌≡◌, refl, arith, List, [], ◌∷◌, none, some, ◌==◌, if◌then◌else◌, replicate,
  ok,
}
use create_an_os.Common.Bitmap.{byte_bit}
use create_an_os.Common.Bitmap.Laws.{IsBytes-replicate, bit_at}
use create_an_os.Fs.Disk.{Inode, FileDesc, Fs}
use create_an_os.Fs.Sectors.{alloc_sector}
use create_an_os.Fs.Sectors.Fresh.{IsMapped, Takes, alloc_sector-Takes, bit_of}

-- A file of two blocks, in sectors 2 and 3 of the data, open at position 100.
abbrev file : Inode
file = record { kind = 2; size = 600; block_count = 2; direct_pointers = 2 ∷ 3 ∷ replicate 27 0 }

abbrev descriptor : FileDesc
descriptor = record { inode = some 5; rwpointer = 100; rwcount = 1 }

abbrev used_map : List ℕ
used_map = 0b1111 ∷ replicate 511 0

abbrev fs : Fs
fs = record {
  meta = record {
    magic = 0xbaba;
    name = replicate 8 0;
    inode_count = 64;
    sector_count = 512;
    sector_map_start = 32;
    inode_map_start = 33;
    inode_table_start = 34;
    data_start = 50;
  };
  file_desc_table = descriptor ∷ replicate 63 (record { inode = none; rwpointer = 0; rwcount = 0 });
  inode_table = replicate 64 file;
  inode_map = replicate 8 0;
  disk = λ s. if s == 32 then used_map else replicate 512 0;
  fds = some 0 ∷ none ∷ none ∷ none ∷ [];
}

abbrev bytes : ℕ → List ℕ
bytes n = replicate n 7

fs_IsMapped : IsMapped fs
fs_IsMapped = record {
  order = omega arith;
  size = λ b low high. let only : b ≡ 32 = omega arith in rw only refl;
  bytes =
      λ b low high. let only : b ≡ 32 = omega arith in rw only (omega arith, IsBytes-replicate 511);
}

fourth_free : bit_of fs 4 ≡ 0
unfolding bit_at byte_bit
fourth_free = refl

lower_used : (r : ℕ) → r < 4 → bit_of fs r ≡ 1
unfolding bit_at byte_bit
lower_used zero h = refl
lower_used (suc zero) h = refl
lower_used (suc (suc zero)) h = refl
lower_used (suc (suc (suc zero))) h = refl
lower_used (suc (suc (suc (suc r)))) h = absurd (omega arith)

alloc_sector-Takes_example : (fs' : Fs) × (alloc_sector fs ≡ ok (4, fs')) × Takes 4 fs fs'
alloc_sector-Takes_example =
    alloc_sector-Takes 4 fs fs_IsMapped (omega arith) fourth_free lower_used
