-- ===== src/Mem/Cleanup.antt =====
-- mem/paging.c, `sys_cleanup_memory`: a process gives its pages and page tables back.
pub mod Private
pub mod Bare
use create_an_os.Prelude.{ℕ, zero, suc, ◌+◌, ◌*◌, bit_and, ◌==◌, if◌then◌else◌, Outcome, ok, ◌>>=◌}
use create_an_os.Mem.Alloc.{sys_free_phy_page}
use create_an_os.Mem.Paging.{dec, sys_free_page_frame}
use create_an_os.Mem.Fault.{Space, table_of, set_word}

-- One page: it is free when nobody shares it any more.
unfoldable pub release_page : ℕ → Space → Outcome Space
release_page page s =
    let (count, copies) = dec page s.copies in
    let freed : Outcome Space = sys_free_phy_page page s.memory >>= λ memory.
    ok (record s { memory = memory; copies = copies }) in
    if count == 0 then freed else ok (record s { copies = copies })

-- The inner loop, from entry `j` of the table at `pte` on with `left` entries left.
unfoldable pub release_entries : ℕ → ℕ → ℕ → Space → Outcome Space
release_entries zero pte j s = ok s
release_entries (suc left) pte j s =
    let entry = s.frames.word (pte + 4 * j) in
    let next = release_entries left pte (j + 1) in
    let released = release_page (bit_and entry 0xfffff000) s >>= next in
    if bit_and entry 1 == 0 then next s else released

-- The outer loop, from entry `i` of the directory at `pde` on with `left` entries left.
unfoldable pub release_tables : ℕ → ℕ → ℕ → Space → Outcome Space
release_tables zero pde i s = ok s
release_tables (suc left) pde i s =
    let slot = pde + 4 * i in
    let pte = table_of (s.frames.word slot) in
    let next = release_tables left pde (i + 1) in
    let released : Outcome Space = release_entries 1024 pte 0 s >>= λ s₁.
    sys_free_page_frame pte s₁.frames >>= λ frames.
    next (record s₁ { frames = set_word slot 0 frames }) in
    if bit_and (s.frames.word slot) 1 == 0 then next s else released

unfoldable pub sys_cleanup_memory : ℕ → Space → Outcome Space
sys_cleanup_memory pde s = release_tables 768 pde 0 s
