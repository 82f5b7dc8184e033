-- ===== src/Mem/Fault/Tests.antt =====
-- A page fault at a concrete page table.
use create_an_os.Prelude.{
  ℕ, ◌+◌, ◌*◌, ◌≡◌, ◌≢◌, refl, arith, true, inl, inr, [], ◌∷◌, replicate, ◌==◌, if◌then◌else◌, ok,
}
use create_an_os.Mem.Alloc.{user_space_start, init_memory}
use create_an_os.Mem.Alloc.Counter.{HandedOut, init_memory-HandedOut}
use create_an_os.Mem.Paging.{page_phy_to_vir}
use create_an_os.Mem.Paging.Shares.{shares, IsCounted, Recounted}
use create_an_os.Mem.Paging.Dropping.{left_of}
use create_an_os.Mem.Fault.{Space, page_fault_handler}
use create_an_os.Mem.Fault.Share.{slot_of, page_of, page_fault_handler-Recounted}

-- A directory at 0xc0523000 whose first table is the frame behind it, and in that page 1, which is
-- page 0x400000 with two sharers.
abbrev space : Space
space = record {
  frames = record {
    page_bitmap = 0b11111 ∷ replicate 27 0;
    word = λ a. if a == 0xc0523000 then 0x224007 else if a == 0xc0524004 then 0x400005 else 0;
  };
  memory = init_memory;
  copies = (0x400000, 2) ∷ (0, 0) ∷ [];
  pages = λ p. replicate 0x1000 1;
}

shared_page : page_of 0xc0523000 0x1234 space ≡ 0x400000
unfolding page_phy_to_vir
shared_page = refl

space_IsCounted : IsCounted space.copies
space_IsCounted = (inr (omega arith, omega arith, ((λ e. omega arith), tt)), (inl refl, tt))

page_fault_handler-Recounted_example :
    (s' : Space) × (page_fault_handler true 7 0x1234 0xc0523000 space ≡ ok s')
    × (s'.frames.word (slot_of 0xc0523000 0x1234 space) ≡ user_space_start + 0x1000 * 0 + 7)
    × ((a : ℕ) → a ≢ slot_of 0xc0523000 0x1234 space → s'.frames.word a ≡ space.frames.word a)
    × (s'.pages (user_space_start + 0x1000 * 0) ≡ space.pages (user_space_start + 0x1000 * 0))
    × ((p : ℕ) → p ≢ user_space_start + 0x1000 * 0 → s'.pages p ≡ space.pages p)
    × Recounted
        (page_of 0xc0523000 0x1234 space)
        (left_of (shares (page_of 0xc0523000 0x1234 space) space.copies))
        space.copies
        s'.copies
    × HandedOut 1 s'.memory
unfolding page_phy_to_vir shares
page_fault_handler-Recounted_example =
    page_fault_handler-Recounted true 7 0x1234 0xc0523000 0 space refl refl space_IsCounted
      (omega (arith, shared_page)) (inl refl) (omega arith) init_memory-HandedOut (omega arith)
