-- ===== src/Fs/File.antt =====
-- fs/fs.c, `sys_do_read`, `sys_do_write` and `sys_do_close`: the bytes of an open file. A result of
-- -1 is `minus_one`.
pub mod Copy
pub mod Block
pub mod Tail
use create_an_os.Prelude.{
  ℕ, zero, suc, ◌+◌, ◌-◌, ◌*◌, ◌/◌, ◌%◌, ◌^◌, min, max, List, [], ◌∷◌, ◌++◌, Option, none, some,
  Bool, true, false, ltb, leb, ◌==◌, if◌then◌else◌, Outcome, ok, hang, ◌>>=◌, read, write,
}
use create_an_os.Fs.Disk.{data_sector, FileDesc, Fs, Inode, minus_one, sync_inode, write_sector}
use create_an_os.Fs.Sectors.{alloc_sector}

-- `memcpy(buffer + at, bytes, ...)`
unfoldable pub copy_into : ℕ → List ℕ → List ℕ → Outcome (List ℕ)
copy_into at [] buffer = ok buffer
copy_into at (b ∷ bytes) buffer = write buffer at b >>= copy_into (at + 1) bytes

-- The `n` bytes from `at` on that a `memcpy` takes.
unfoldable pub copy_from : ℕ → ℕ → List ℕ → Outcome (List ℕ)
copy_from zero at bytes = ok []
copy_from (suc n) at bytes = do b ← read bytes at; rest ← copy_from n (at + 1) bytes; ok (b ∷ rest)

-- `while(block_end >= inode->block_count)`, on fuel: 29 rounds at most add a block. The flag says
-- that the loop came to its end; otherwise the call returns -1.
unfoldable pub grow : ℕ → ℕ → ℕ → Fs → Outcome (Bool × Fs)
grow zero block_end n fs = hang
grow (suc rounds) block_end n fs = read fs.inode_table n >>= λ inode.
    let add_block : Outcome (Bool × Fs) = alloc_sector fs >>= λ (sector, fs').
    write inode.direct_pointers inode.block_count sector >>= λ pointers.
    write fs'.inode_table n
      (record inode { direct_pointers = pointers; block_count = inode.block_count + 1 })
    >>= λ inodes. grow rounds block_end n (record fs' { inode_table = inodes }) in
    if ltb block_end inode.block_count
    then ok (true, fs)
    else if leb 29 inode.block_count
    then ok (false, fs)
    else add_block

-- Bytes into a sector of the data: it is read, changed and written back.
unfoldable pub patch_sector : ℕ → ℕ → List ℕ → Fs → Outcome Fs
patch_sector sector at bytes fs =
    copy_into at bytes (fs.disk (data_sector fs.meta sector)) >>= λ buffer.
    ok (record fs { disk = write_sector (data_sector fs.meta sector) buffer fs.disk })

-- The whole sectors of blocks `i` to `i + left - 1`, from `bytes[at]` on.
unfoldable pub write_blocks : ℕ → ℕ → ℕ → List ℕ → List ℕ → Fs → Outcome Fs
write_blocks zero i at blocks bytes fs = ok fs
write_blocks (suc left) i at blocks bytes fs = read blocks i >>= λ sector.
    copy_from 512 at bytes >>= λ buffer.
    write_blocks left (i + 1) (at + 512) blocks bytes
      (record fs { disk = write_sector (data_sector fs.meta sector) buffer fs.disk })

-- From `uint32_t* blocks` to the second `if`: the blocks of a write at `pre` in block `block_start`.
-- The last one takes its bytes from the start of `bytes`, as the code does. The difference of the two
-- numbers, as a `uint32_t`, is 0 just where they are equal; the loop counts up from the lower one.
unfoldable pub put_blocks : ℕ → ℕ → ℕ → ℕ → List ℕ → List ℕ → Fs → Outcome Fs
put_blocks block_start block_end pre size blocks bytes fs =
    let first = min size (512 - pre) in
    read blocks block_start >>= λ sector. copy_from first 0 bytes >>= λ head.
    patch_sector sector pre head fs >>= λ fs₁.
    let further : Outcome Fs =
      write_blocks (block_end - block_start - 1) (block_start + 1) first blocks bytes fs₁ >>= λ fs₂.
      read blocks block_end >>= λ sector'.
      copy_from ((size + pre) % 512) 0 bytes >>= λ tail. patch_sector sector' 0 tail fs₂ in
    if block_end == block_start then ok fs₁ else further

-- The inode takes its new size, and the tables go to the disk.
unfoldable pub finish_write : ℕ → ℕ → Fs → Outcome Fs
finish_write n end fs = read fs.inode_table n >>= λ inode.
    write fs.inode_table n (record inode { size = max inode.size end }) >>= λ inodes.
    sync_inode (record fs { inode_table = inodes })

-- `sys_do_write` once the inode `n` and the position are known.
unfoldable pub write_at : ℕ → ℕ → ℕ → List ℕ → Fs → Outcome (ℕ × Fs)
write_at n rwpointer size bytes fs =
    let end = (rwpointer + size) % 2 ^ 32 in
    grow 30 (end / 512) n fs >>= λ (grown, fs₁).
    let store_bytes : Outcome (ℕ × Fs) = read fs₁.inode_table n >>= λ inode.
    put_blocks (rwpointer / 512) (end / 512) (rwpointer % 512) size inode.direct_pointers bytes fs₁
    >>= λ fs₂. finish_write n end fs₂ >>= λ fs₃. ok (size, fs₃) in
    if grown then store_bytes else ok (minus_one, fs₁)

-- The checks that reading and writing start with: what follows has the descriptor and its inode.
unfoldable pub with_file : ℕ → Fs → (FileDesc → ℕ → Outcome (ℕ × Fs)) → Outcome (ℕ × Fs)
with_file fd fs body =
    let opened : Outcome (ℕ × Fs) = read fs.fds fd >>= λ entry. elim entry [
      | none ↦ ok (minus_one, fs)
      | some k ↦ read fs.file_desc_table k >>= λ desc. elim desc.inode [
        | none ↦ ok (minus_one, fs)
        | some n ↦ body desc n
      ]
    ] in
    if leb 4 fd then hang else opened

unfoldable pub sys_do_write : ℕ → List ℕ → ℕ → Fs → Outcome (ℕ × Fs)
sys_do_write fd bytes size fs = with_file fd fs (λ desc n. write_at n desc.rwpointer size bytes fs)

-- The whole sectors of blocks `i` to `i + left - 1`.
unfoldable pub read_blocks : ℕ → ℕ → List ℕ → Fs → Outcome (List ℕ)
read_blocks zero i blocks fs = ok []
read_blocks (suc left) i blocks fs = do
  sector ← read blocks i
  bytes ← copy_from 512 0 (fs.disk (data_sector fs.meta sector))
  rest ← read_blocks left (i + 1) blocks fs
  ok (bytes ++ rest)

-- `sys_do_read` once the inode is known: the bytes that go to `dest`, from its start on.
unfoldable pub read_at : Inode → ℕ → ℕ → Fs → Outcome (List ℕ)
read_at inode rwpointer wanted fs =
    let size = min wanted ((inode.size + 2 ^ 32 - rwpointer) % 2 ^ 32) in
    let block_start = rwpointer / 512 in
    let block_end = (rwpointer + size) % 2 ^ 32 / 512 in
    let pre = rwpointer % 512 in
    read inode.direct_pointers block_start >>= λ sector.
    copy_from (min size (512 - pre)) pre (fs.disk (data_sector fs.meta sector)) >>= λ head.
    let further : Outcome (List ℕ) =
      read_blocks (block_end - block_start - 1) (block_start + 1) inode.direct_pointers fs
      >>= λ whole. read inode.direct_pointers block_end >>= λ sector'.
          copy_from ((size + pre) % 512) 0 (fs.disk (data_sector fs.meta sector')) >>= λ tail.
          ok (head ++ (whole ++ tail)) in
    if block_end == block_start then ok head else further

-- `none` where the call returns -1, else the bytes, whose number it returns.
unfoldable pub sys_do_read : ℕ → ℕ → Fs → Outcome (Option (List ℕ))
sys_do_read fd size fs =
    let opened : Outcome (Option (List ℕ)) = read fs.fds fd >>= λ entry. elim entry [
      | none ↦ ok none
      | some k ↦ read fs.file_desc_table k >>= λ desc. elim desc.inode [
        | none ↦ ok none
        | some n ↦ read fs.inode_table n >>= λ inode.
            read_at inode desc.rwpointer size fs >>= λ bytes. ok (some bytes)
      ]
    ] in
    if leb 4 fd then hang else opened

unfoldable pub sys_do_close : ℕ → Fs → Outcome (ℕ × Fs)
sys_do_close fd fs =
    let closed : Outcome (ℕ × Fs) = read fs.fds fd >>= λ entry. write fs.fds fd none >>= λ fds.
    elim entry [
      | none ↦ ok (minus_one, record fs { fds = fds })
      | some k ↦ read fs.file_desc_table k >>= λ desc.
          let count = (desc.rwcount + 2 ^ 32 - 1) % 2 ^ 32 in
          write fs.file_desc_table k
            (record desc { rwcount = count; inode = if count == 0 then none else desc.inode })
          >>= λ table. ok (
            elim desc.inode [ none ↦ minus_one | some n ↦ 0 ],
            record fs { fds = fds; file_desc_table = table },
          )
    ] in
    if leb 4 fd then hang else closed
