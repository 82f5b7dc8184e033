-- ===== src/Fs/Format/Tests.antt =====
-- A disk of zeros.
use create_an_os.Prelude.{ℕ, ◌≡◌, ◌≢◌, arith, List, none, replicate, ok}
use create_an_os.Fs.Disk.{Fs}
use create_an_os.Fs.Format.{init_fs, superblock_of}
use create_an_os.Fs.Format.Fresh.{IsFresh, init_fs-IsFresh}

abbrev zeros : ℕ → List ℕ
zeros sector = replicate 512 0

no_magic : (superblock_of (zeros 0)).magic ≢ 0xbaba
unfolding superblock_of
no_magic e = omega (arith, e)

init_fs-IsFresh_example :
    (fs : Fs) × (init_fs 2048 (replicate 4 none) zeros ≡ ok fs)
    × IsFresh (replicate 4 none) fs
    × ((later : ℕ) → init_fs later (replicate 4 none) fs.disk ≡ ok fs)
init_fs-IsFresh_example = init_fs-IsFresh 2048 (replicate 4 none) zeros (omega arith) no_magic
