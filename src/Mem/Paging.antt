-- ===== src/Mem/Paging.antt =====
-- mem/paging.c: addresses, the frames that page tables live in, and the count of the processes that
-- share a page. Addresses and counts are `uint32_t`.
pub mod FrameAlloc
pub mod Shares
pub mod Adding
pub mod Room
pub mod Dropping
use create_an_os.Prelude.{
  ℕ, zero, suc, ◌+◌, ◌-◌, ◌*◌, ◌/◌, ◌%◌, ◌^◌, List, [], ◌∷◌, Option, none, some, leb, ltb, ◌==◌,
  ◌&&◌, if◌then◌else◌, Outcome, ok, hang, ◌>>=◌,
}
use create_an_os.Common.Bitmap.{get_bit, set_bit}

abbrev pub proc_max_cnt : ℕ
proc_max_cnt = 32

-- `PROC_KSTACK_TABLE_START + 0x1000 * PROC_MAX_CNT`
abbrev pub page_table_start : ℕ
page_table_start = 0xc0500000 + 0x1000 * proc_max_cnt

abbrev pub page_table_end : ℕ
page_table_end = 0xc0600000

abbrev pub frame_count : ℕ
frame_count = (page_table_end - page_table_start) / 0x1000

-- The bitmap of the frames, and the words that stand in them, by their address.
pub record Frames : Type 0 where
  pub page_bitmap : List ℕ
  pub word : ℕ → ℕ

unfoldable pub page_vir_to_phy : ℕ → ℕ
page_vir_to_phy addr = (addr + 2 ^ 32 - 0xc0300000) % 2 ^ 32

unfoldable pub page_phy_to_vir : ℕ → ℕ
page_phy_to_vir addr = (addr + 0xc0300000) % 2 ^ 32

-- `memset(ret, 0, 0x1000)`
abbrev pub zeroed : ℕ → (ℕ → ℕ) → ℕ → ℕ
zeroed page word addr = if leb page addr && ltb addr (page + 0x1000) then 0 else word addr

-- Marks frame `i`, clears it and returns its physical address.
unfoldable pub take_frame : ℕ → Frames → Outcome (ℕ × Frames)
take_frame i frames = set_bit frames.page_bitmap i 1 >>= λ bitmap.
    let page = (page_table_start + i * 0x1000) % 2 ^ 32 in
    ok (page_vir_to_phy page, record { page_bitmap = bitmap; word = zeroed page frames.word })

-- The loop of `sys_alloc_page_frame` from frame `i` on, with `rounds` left; then `while(1);`.
unfoldable pub search_frame : ℕ → ℕ → Frames → Outcome (ℕ × Frames)
search_frame zero i frames = hang
search_frame (suc rounds) i frames =
    let next = search_frame rounds (i + 1) frames in
    get_bit frames.page_bitmap i >>= λ used. if used == 0 then take_frame i frames else next

unfoldable pub sys_alloc_page_frame : Frames → Outcome (ℕ × Frames)
sys_alloc_page_frame frames = search_frame frame_count 0 frames

unfoldable pub sys_free_page_frame : ℕ → Frames → Outcome Frames
sys_free_page_frame addr frames =
    set_bit frames.page_bitmap ((addr + 2 ^ 32 - page_table_start) % 2 ^ 32 / 0x1000) 0
    >>= λ bitmap. ok (record frames { page_bitmap = bitmap })

-- `frame_copy_map`: pairs of a page and a count; page 0 marks an entry that is not in use.
abbrev pub CopyMap : Type 0
CopyMap = List (ℕ × ℕ)

-- The first loop of `add`: one more on the entry of `key`, if there is one.
unfoldable pub bump : ℕ → CopyMap → Option CopyMap
bump key [] = none
bump key ((k, n) ∷ m) =
    if k == key
    then some ((k, (n + 1) % 2 ^ 32) ∷ m)
    else elim (bump key m) [ none ↦ none | some m' ↦ some ((k, n) ∷ m') ]

-- The second loop of `add`: the first entry that is not in use counts two.
unfoldable pub claim : ℕ → CopyMap → Option CopyMap
claim key [] = none
claim key ((k, n) ∷ m) =
    if k == 0
    then some ((key, 2) ∷ m)
    else elim (claim key m) [ none ↦ none | some m' ↦ some ((k, n) ∷ m') ]

unfoldable pub add : ℕ → CopyMap → Outcome CopyMap
add key m = elim (bump key m) [
  | some m' ↦ ok m'
  | none ↦ elim (claim key m) [ some m' ↦ ok m' | none ↦ hang ]
]

-- The loop of `dec` over the next `rounds` entries: the count that is returned, and the entries.
unfoldable pub dec_entries : ℕ → ℕ → CopyMap → ℕ × CopyMap
dec_entries zero key m = (0, m)
dec_entries (suc rounds) key [] = (0, [])
dec_entries (suc rounds) key ((k, n) ∷ m) =
    let (count, m') = dec_entries rounds key m in
    let left = (n + 2 ^ 32 - 1) % 2 ^ 32 in
    if k == key then (left, (if left == 0 then 0 else k, left) ∷ m) else (count, (k, n) ∷ m')

-- The loop ends at 64, the map has 128 entries.
unfoldable pub dec : ℕ → CopyMap → ℕ × CopyMap
dec key m = dec_entries 64 key m
