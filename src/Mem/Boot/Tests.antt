-- ===== src/Mem/Boot/Tests.antt =====
-- The kernel's page tables over an empty memory.
use create_an_os.Prelude.{ℕ, ◌+◌, ◌<◌, ◌≡◌, replicate, some, true, ok}
use create_an_os.Mem.Paging.{Frames, page_table_start, page_vir_to_phy}
use create_an_os.Mem.Paging.FrameAlloc.{IsValid}
use create_an_os.Mem.Boot.{init_paging}
use create_an_os.Mem.Boot.Translation.{translate, is_writable, init_paging-translates}

init_paging-translates_example :
    (frames : Frames) × (init_paging (λ a. 0) ≡ ok (frames, replicate 128 (0, 0)))
    × IsValid frames
    × ((x : ℕ)
        → x < 0x100000
        → (translate page_table_start frames.word (0xc0000000 + x) ≡ some x)
          × (is_writable page_table_start frames.word (0xc0000000 + x) ≡ true))
    × ((x : ℕ)
        → x < 0x200000
        → (translate page_table_start frames.word (0xc0400000 + x) ≡ some (0x100000 + x))
          × (is_writable page_table_start frames.word (0xc0400000 + x) ≡ true)
          × (page_vir_to_phy (0xc0400000 + x) ≡ 0x100000 + x))
init_paging-translates_example = init_paging-translates (λ a. 0)
