-- ===== src/Fs/Open/Tests.antt =====
-- A process that opens and closes a file that is there.
use create_an_os.Prelude.{
  ℕ, ◌≡◌, refl, arith, List, [], ◌∷◌, ◌++◌, Option, none, some, replicate, ok, read,
}
use create_an_os.Fs.Disk.{Fs, FileDesc, Inode}
use create_an_os.Fs.Directory.{
  c_string, filename, find_block, find_entry, find_file, in_filename, inode_idx, locate,
  same_string,
}
use create_an_os.Fs.File.{sys_do_close}
use create_an_os.Fs.Open.{sys_do_open}
use create_an_os.Fs.Open.Close.{IsFirstFree, IsFirstUnused, sys_do_close-sys_do_open}

-- Entry 1 of a sector is inode 1, with the name "sh".
abbrev one_entry : List ℕ
one_entry =
    replicate 16 0xff ++ (1 ∷ 0 ∷ 0 ∷ 0 ∷ b's' ∷ b'h' ∷ (replicate 10 0 ++ replicate 480 0xff))

abbrev file_inode : Inode
file_inode = record {
  kind = 2;
  size = 700;
  block_count = 2;
  direct_pointers = 2 ∷ 3 ∷ replicate 27 0;
}

abbrev in_use : FileDesc
in_use = record { inode = some 1; rwpointer = 0; rwcount = 1 }

abbrev unused : FileDesc
unused = record { inode = none; rwpointer = 12; rwcount = 0 }

abbrev system : List (Option ℕ) → Fs
system fds = record {
  meta = record {
    magic = 0xbaba;
    name = replicate 8 0;
    inode_count = 64;
    sector_count = 100;
    sector_map_start = 32;
    inode_map_start = 33;
    inode_table_start = 34;
    data_start = 50;
  };
  file_desc_table = in_use ∷ unused ∷ [];
  inode_table =
      record { kind = 1; size = 512; block_count = 1; direct_pointers = [] } ∷ file_inode ∷ [];
  inode_map = 3 ∷ replicate 7 0;
  disk = λ sector. one_entry;
  fds = fds;
}

abbrev one_left : Fs
one_left = system (some 0 ∷ none ∷ none ∷ none ∷ [])

abbrev name : List ℕ
name = b's' ∷ b'h' ∷ []

found_file : find_file name one_left ≡ ok 1
unfolding find_file locate find_block find_entry inode_idx filename c_string in_filename same_string
    read
found_file = refl

file_read : read one_left.inode_table 1 ≡ ok file_inode
unfolding read
file_read = refl

first_free : IsFirstFree 1 one_left.fds
unfolding read
first_free = record {
  free = refl;
  before = λ j low. let only : j ≡ 0 = omega arith in (0, rw only refl);
}

first_unused : IsFirstUnused 1 unused one_left.file_desc_table
unfolding read
first_unused = record {
  here = refl;
  unused = refl;
  before = λ j low. let only : j ≡ 0 = omega arith in (in_use, 1, rw only refl, refl);
}

sys_do_close-sys_do_open_example :
    (fs' : Fs) × (sys_do_open name 6 one_left ≡ ok (1, fs'))
    × (read fs'.fds 1 ≡ ok (some 1))
    × (read fs'.file_desc_table 1 ≡ ok (record { inode = some 1; rwpointer = 700; rwcount = 1 }))
    × (sys_do_close 1 fs'
        ≡ ok (
          0,
          record one_left {
            file_desc_table = in_use ∷ record { inode = none; rwpointer = 700; rwcount = 0 } ∷ [];
          },
        ))
sys_do_close-sys_do_open_example =
    sys_do_close-sys_do_open name 6 1 1 1 12 file_inode one_left found_file (omega arith) file_read
      (λ e. omega arith) first_free (omega arith) first_unused
