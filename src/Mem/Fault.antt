-- ===== src/Mem/Fault.antt =====
-- mem/paging.c, `page_fault_handler`: a page that is not there is mapped, and a page that is written
-- to while it is shared is copied. Page tables are words of `Frames`, by their address. The content of
-- a physical page is a list of bytes, and the two `memcpy` move contents through the faulting address.
-- The second one comes in front of `flushTLB`, and a kernel without CR0.WP may write to a page that is
-- mapped for reading: `stale` says that the processor still has the translation that the first one
-- used.
pub mod Share
mod Tests
use create_an_os.Prelude.{
  ℕ, ◌+◌, ◌-◌, ◌*◌, ◌/◌, ◌%◌, ◌^◌, bit_and, bit_or, List, Bool, ◌==◌, if◌then◌else◌, Outcome, ok,
  ◌>>=◌,
}
use create_an_os.Io.Terminal.{store}
use create_an_os.Mem.Alloc.{Memory, sys_alloc_phy_page}
use create_an_os.Mem.Paging.{CopyMap, Frames, dec, page_phy_to_vir, sys_alloc_page_frame}

pub record Space : Type 0 where
  pub frames : Frames
  pub memory : Memory
  pub copies : CopyMap
  pub pages : ℕ → List ℕ

-- `&pde[vir_addr >> 22]`, and `&pte[(vir_addr >> 12) & 0x3ff]`.
abbrev pub pde_slot : ℕ → ℕ → ℕ
pde_slot pde vir_addr = pde + 4 * (vir_addr / 2 ^ 22)

abbrev pub pte_slot : ℕ → ℕ → ℕ
pte_slot pte vir_addr = pte + 4 * bit_and (vir_addr / 2 ^ 12) 0x3ff

-- The page table that a directory entry names.
abbrev pub table_of : ℕ → ℕ
table_of entry = page_phy_to_vir (bit_and entry 0xfffff000)

abbrev pub set_word : ℕ → ℕ → Frames → Frames
set_word a v frames = record frames { word = store frames.word a v }

unfoldable pub with_table : ℕ → ℕ → Space → Outcome Space
with_table pde vir_addr s =
    let slot = pde_slot pde vir_addr in
    let added : Outcome Space = sys_alloc_page_frame s.frames >>= λ (frame, frames).
    ok (record s { frames = set_word slot (bit_or frame 0b111) frames }) in
    if bit_and (s.frames.word slot) 1 == 0 then added else ok s

-- The branch for a page that is not present.
unfoldable pub map_page : ℕ → ℕ → Space → Outcome Space
map_page pde vir_addr s = with_table pde vir_addr s >>= λ s₁.
    let pte = table_of (s₁.frames.word (pde_slot pde vir_addr)) in
    sys_alloc_phy_page s₁.memory >>= λ (page, memory). ok (record s₁ {
      memory = memory;
      frames = set_word (pte_slot pte vir_addr) (bit_or page 0b111) s₁.frames;
    })

-- The branch for a write to a page that is present.
unfoldable pub own_page : Bool → ℕ → ℕ → Space → Outcome Space
own_page stale pde vir_addr s =
    let slot = pte_slot (table_of (s.frames.word (pde_slot pde vir_addr))) vir_addr in
    let entry = s.frames.word slot in
    let old = bit_and entry 0xfffff000 in
    let (count, copies) = dec old s.copies in
    let copied : Outcome Space = sys_alloc_phy_page s.memory >>= λ (page, memory). ok (record s {
      memory = memory;
      copies = copies;
      frames = set_word slot (bit_or page 0b111) s.frames;
      pages = λ p. if (if stale then old else page) == p then s.pages old else s.pages p;
    }) in
    if count == 0
    then ok (record s { copies = copies; frames = set_word slot (bit_or entry 0b10) s.frames })
    else copied

-- `pde` is the directory of the current process, `vir_addr` what register cr2 holds.
unfoldable pub page_fault_handler : Bool → ℕ → ℕ → ℕ → Space → Outcome Space
page_fault_handler stale err_code vir_addr pde s =
    if bit_and err_code 1 == 0
    then map_page pde vir_addr s
    else if bit_and err_code 2 == 0
    then ok s
    else own_page stale pde vir_addr s
