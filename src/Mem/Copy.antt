-- ===== src/Mem/Copy.antt =====
-- mem/paging.c, `sys_copy_pages` and `sys_create_proc_page_table`: the address space of a new process.
-- Page tables are words of `Frames` by their address; a copy between two of them goes word by word.
pub mod Shared
pub mod Table
pub mod Bare
mod Tests
use create_an_os.Prelude.{
  ℕ, zero, suc, ◌+◌, ◌*◌, bit_and, bit_or, ◌==◌, if◌then◌else◌, Outcome, ok, ◌>>=◌,
}
use create_an_os.Io.Terminal.{store}
use create_an_os.Mem.Paging.{Frames, add, page_phy_to_vir, page_table_start, sys_alloc_page_frame}
use create_an_os.Mem.Fault.{Space, table_of, set_word}

-- The loop of `memcpy` over `left` words from word `i` on.
unfoldable pub copy_words : ℕ → ℕ → ℕ → ℕ → (ℕ → ℕ) → ℕ → ℕ
copy_words zero i dest src word = word
copy_words (suc left) i dest src word =
    copy_words left (i + 1) dest src (store word (dest + 4 * i) (word (src + 4 * i)))

-- `spte[j] &= 0xfffffffd`
abbrev pub protect : ℕ → ℕ
protect entry = bit_and entry 0xfffffffd

-- The inner loop, from entry `j` of the table at `spte` on with `left` entries left.
unfoldable pub share_entries : ℕ → ℕ → ℕ → Space → Outcome Space
share_entries zero spte j s = ok s
share_entries (suc left) spte j s =
    let slot = spte + 4 * j in
    let entry = s.frames.word slot in
    let next = share_entries left spte (j + 1) in
    let shared : Outcome Space = add (bit_and (protect entry) 0xfffff000) s.copies >>= λ copies.
    next (record s { frames = set_word slot (protect entry) s.frames; copies = copies }) in
    if bit_and entry 1 == 0 then next s else shared

-- The branch for an entry `i` of the directory that is present.
unfoldable pub copy_table : ℕ → ℕ → ℕ → Space → Outcome Space
copy_table spde dpde i s = sys_alloc_page_frame s.frames >>= λ (frame, frames).
    let entry = bit_or frame 0b111 in
    let linked = set_word (dpde + 4 * i) entry frames in
    let dpte = table_of entry in
    let spte = table_of (linked.word (spde + 4 * i)) in
    share_entries 1024 spte 0 (record s { frames = linked }) >>= λ s'.
    ok (record s' {
      frames = record s'.frames { word = copy_words 1024 0 dpte spte s'.frames.word };
    })

-- The outer loop, from entry `i` of the directory at `spde` on with `left` entries left.
unfoldable pub copy_tables : ℕ → ℕ → ℕ → ℕ → Space → Outcome Space
copy_tables zero spde dpde i s = ok s
copy_tables (suc left) spde dpde i s =
    let next = copy_tables left spde dpde (i + 1) in
    let copied = copy_table spde dpde i s >>= next in
    let skipped = next (record s { frames = set_word (dpde + 4 * i) 0 s.frames }) in
    if bit_and (s.frames.word (spde + 4 * i)) 1 == 0 then skipped else copied

-- The kernel's part of a directory: the 256 entries from 768 on.
abbrev pub kernel_words : ℕ → ℕ → Frames → Frames
kernel_words dpde spde frames = record frames {
  word = copy_words 256 0 (dpde + 4 * 768) (spde + 4 * 768) frames.word;
}

-- `spde` is the directory of the process that is copied; the new one's comes back.
unfoldable pub sys_copy_pages : ℕ → Space → Outcome (ℕ × Space)
sys_copy_pages spde s = sys_alloc_page_frame s.frames >>= λ (frame, frames).
    let dpde = page_phy_to_vir frame in
    copy_tables 768 spde dpde 0 (record s { frames = frames }) >>= λ s'.
    ok (dpde, record s' { frames = kernel_words dpde spde s'.frames })

unfoldable pub sys_create_proc_page_table : Space → Outcome (ℕ × Space)
sys_create_proc_page_table s = sys_alloc_page_frame s.frames >>= λ (frame, frames).
    let pde = page_phy_to_vir frame in
    ok (pde, record s { frames = kernel_words pde page_table_start frames })
