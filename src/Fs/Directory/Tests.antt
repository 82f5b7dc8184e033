-- ===== src/Fs/Directory/Tests.antt =====
-- Names and entries at a concrete directory.
use create_an_os.Prelude.{
  ℕ, zero, suc, ◌+◌, ◌*◌, ◌≡◌, refl, arith, List, [], ◌∷◌, some, ◌==◌, if◌then◌else◌, replicate, ok,
  fault, read,
}
use create_an_os.Fs.Disk.{Fs}
use create_an_os.Fs.Directory.{
  c_string, filename, in_filename, find_block, find_entry, inode_idx, locate, same_string,
  split_name, sys_do_unlink,
}
use create_an_os.Fs.Directory.Names.{joined, IsPart}
use create_an_os.Fs.Directory.Split.{filename-split_name}
use create_an_os.Fs.Directory.Overrun.{split_name-overruns}
use create_an_os.Fs.Directory.Unlink.{sys_do_unlink-fault}

abbrev blank_sector : List ℕ
blank_sector = replicate 512 0xff

abbrev base : List ℕ
base = b's' ∷ b'h' ∷ []

abbrev ext : List ℕ
ext = b'b' ∷ b'i' ∷ b'n' ∷ []

filename-split_name_example :
    (dirs' : List ℕ) × (split_name 3 (joined base ext) blank_sector ≡ ok dirs')
    × (filename 3 dirs' ≡ ok (joined base ext))
filename-split_name_example =
    filename-split_name 3 base ext blank_sector (omega arith) refl (omega arith) (omega arith)
      ((λ e. omega arith), (λ e. omega arith), ((λ e. omega arith), (λ e. omega arith), tt))
      (
        (λ e. omega arith),
        (λ e. omega arith),
        ((λ e. omega arith), (λ e. omega arith), ((λ e. omega arith), (λ e. omega arith), tt)),
      )

as_IsPart : (n : ℕ) → IsPart (replicate n b'a')
as_IsPart zero = tt
as_IsPart (suc n) = ((λ e. omega arith), (λ e. omega arith), as_IsPart n)

split_name-overruns_example :
    (dirs' : List ℕ) × (split_name 3 (replicate 12 b'a') blank_sector ≡ ok dirs')
    × (read dirs' ((3 + 1) * 16) ≡ ok 0)
split_name-overruns_example =
    split_name-overruns 3 (replicate 12 b'a') blank_sector (omega arith) refl refl (as_IsPart 12)

-- A directory whose first entry is file `a`, with inode 5.
abbrev directory : List ℕ
directory = 5 ∷ 0 ∷ 0 ∷ 0 ∷ b'a' ∷ 0 ∷ replicate 506 0

abbrev fs : Fs
fs = record {
  meta = record {
    magic = 0xbaba;
    name = replicate 8 0;
    inode_count = 64;
    sector_count = 512;
    sector_map_start = 32;
    inode_map_start = 33;
    inode_table_start = 34;
    data_start = 50;
  };
  file_desc_table = [];
  inode_table =
      replicate 64
        (record { kind = 1; size = 1024; block_count = 2; direct_pointers = replicate 29 0 });
  inode_map = replicate 8 0xff;
  disk = λ s. if s == 50 then directory else replicate 512 0xff;
  fds = [];
}

a_there : locate (b'a' ∷ []) fs ≡ ok (some (0, 0))
unfolding locate find_block find_entry inode_idx filename c_string in_filename same_string read
a_there = refl

sys_do_unlink-fault_example : sys_do_unlink (b'a' ∷ []) fs ≡ fault
sys_do_unlink-fault_example = sys_do_unlink-fault (b'a' ∷ []) 0 0 fs a_there (omega arith) refl refl
