-- ===== src/Mem/Fault/Share.antt =====
-- A write to a shared page.
use create_an_os.Prelude.{
  ℕ, suc, ◌+◌, ◌-◌, ◌*◌, ◌^◌, ◌≤◌, ◌<◌, ◌≡◌, ◌≢◌, refl, arith, List, Bool, true, ℕ_discrete,
  bit_and, bit_or, false, take, ◌==◌, if◌then◌else◌, ok,
}
use create_an_os.Prelude.Bits.{bit_or-shifted}
use create_an_os.Mem.Alloc.{Memory, user_space_start, sys_alloc_phy_page}
use create_an_os.Mem.Alloc.Counter.{HandedOut, page_count, sys_alloc_phy_page-next}
use create_an_os.Mem.Paging.{CopyMap, dec}
use create_an_os.Mem.Paging.Shares.{shares, IsCounted, Present, Recounted}
use create_an_os.Mem.Paging.Dropping.{left_of, dec-Recounted}
use create_an_os.Mem.Fault.{
  Space, pde_slot, pte_slot, table_of, set_word, own_page, page_fault_handler,
}

-- The slot of the page table that maps an address, and the page that it names.
abbrev pub slot_of : ℕ → ℕ → Space → ℕ
slot_of pde vir_addr s = pte_slot (table_of (s.frames.word (pde_slot pde vir_addr))) vir_addr

abbrev pub page_of : ℕ → ℕ → Space → ℕ
page_of pde vir_addr s = bit_and (s.frames.word (slot_of pde vir_addr s)) 0xfffff000

-- The number of a page, with the three flags of a page that a user may write to.
flags_lem :
    (n : ℕ) → bit_or (user_space_start + 0x1000 * n) 0b111 ≡ user_space_start + 0x1000 * n + 7
flags_lem n =
    let page : user_space_start + 0x1000 * n ≡ (0x300 + n) * 2 ^ 12 = omega arith in
    rw page (bit_or-shifted 12 (0x300 + n) 7 (omega arith))

-- The state with the page copied to page `n`.
abbrev copied : Bool → ℕ → ℕ → ℕ → Space → CopyMap → Memory → Space
copied stale vir_addr pde n s copies memory = record s {
  memory = memory;
  copies = copies;
  frames = set_word (slot_of pde vir_addr s) (user_space_start + 0x1000 * n + 7) s.frames;
  pages = λ p.
      if (if stale then page_of pde vir_addr s else user_space_start + 0x1000 * n) == p
      then s.pages (page_of pde vir_addr s)
      else s.pages p;
}

own_page-shared :
    (stale : Bool) (vir_addr pde n : ℕ) (s : Space) (copies : CopyMap) (memory : Memory)
    → 2 ≤ shares (page_of pde vir_addr s) s.copies
    → dec (page_of pde vir_addr s) s.copies ≡ (shares (page_of pde vir_addr s) s.copies - 1, copies)
    → sys_alloc_phy_page s.memory ≡ ok (user_space_start + 0x1000 * n, memory)
    → own_page stale pde vir_addr s ≡ ok (copied stale vir_addr pde n s copies memory)
unfolding own_page
own_page-shared stale vir_addr pde n s copies memory several e e' =
    let more : (shares (page_of pde vir_addr s) s.copies - 1 == 0) ≡ false =
      ground (arith, several) in
    rw (e, more, e', flags_lem n) refl

pages_after :
    (stale : Bool) (old page p : ℕ) (pages : ℕ → List ℕ)
    → p ≢ page
    → (if (if stale then old else page) == p then pages old else pages p) ≡ pages p
pages_after true old page p pages ne = elim (ℕ_discrete old p) [
  | yes e ↦ rw e (ground arith)
  | no d ↦ ground (arith, d)
]
pages_after false old page p pages ne = ground (arith, ne)

page_after :
    (stale : Bool) (old page : ℕ) (pages : ℕ → List ℕ)
    → (if (if stale then old else page) == page then pages old else pages page)
      ≡ (if stale then pages page else pages old)
page_after true old page pages = elim (ℕ_discrete old page) [
  | yes e ↦ rw e (ground arith)
  | no d ↦ ground (arith, d)
]
page_after false old page pages = ground arith

-- A process writes to a page that is present and that it shares with others, the page's count
-- stands among the 64 entries that `dec` looks at, and a page of memory is left: the handler
-- returns, and the process has the next free page in its table, to write to; one sharer fewer is
-- counted for the old page, and no other count, no other table entry and no other page changes. The
-- new page has the content of the old one if the processor follows the new table entry at once. If
-- it still has the translation from before, then the new page keeps what it held.
pub page_fault_handler-Recounted :
    (stale : Bool) (err_code vir_addr pde n : ℕ) (s : Space)
    → (bit_and err_code 1 == 0) ≡ false
    → (bit_and err_code 2 == 0) ≡ false
    → IsCounted s.copies
    → page_of pde vir_addr s ≢ 0
    → Present (page_of pde vir_addr s) (take 64 s.copies)
    → 2 ≤ shares (page_of pde vir_addr s) s.copies
    → HandedOut n s.memory
    → n < page_count
    → let old = page_of pde vir_addr s in
      let page = user_space_start + 0x1000 * n in
      (s' : Space) × (page_fault_handler stale err_code vir_addr pde s ≡ ok s')
      × (s'.frames.word (slot_of pde vir_addr s) ≡ page + 7)
      × ((a : ℕ) → a ≢ slot_of pde vir_addr s → s'.frames.word a ≡ s.frames.word a)
      × (s'.pages page ≡ (if stale then s.pages page else s.pages old))
      × ((p : ℕ) → p ≢ page → s'.pages p ≡ s.pages p)
      × Recounted old (left_of (shares old s.copies)) s.copies s'.copies
      × HandedOut (suc n) s'.memory
unfolding page_fault_handler
page_fault_handler-Recounted stale err_code vir_addr pde n s present write counted real among
      several out room =
    let (copies, e, r) = dec-Recounted (page_of pde vir_addr s) s.copies real counted among in
    let (memory, e', out') = sys_alloc_phy_page-next n s.memory out room in
    (
      copied stale vir_addr pde n s copies memory,
      rw (present, write) (own_page-shared stale vir_addr pde n s copies memory several e e'),
      ground arith,
      λ a ne. ground (arith, ne),
      page_after stale (page_of pde vir_addr s) (user_space_start + 0x1000 * n) s.pages,
      λ p ne.
          pages_after stale (page_of pde vir_addr s) (user_space_start + 0x1000 * n) p s.pages ne,
      r,
      out',
    )
