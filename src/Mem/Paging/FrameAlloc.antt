-- ===== src/Mem/Paging/FrameAlloc.antt =====
-- The allocator of page frames: it hands out the lowest free one, cleared, and takes it back.
use create_an_os.Prelude.{
  ℕ, zero, suc, ◌+◌, ◌-◌, ◌*◌, ◌/◌, ◌%◌, ◌^◌, ◌≤◌, ◌<◌, ◌≡◌, refl, arith, ◌==◌, if◌then◌else◌,
  ℕ_discrete, length, ok, hang,
}
use create_an_os.Common.Bitmap.Laws.{
  IsBytes, bit_at, bit_at-lt, with_bit, get_bit-ok, set_bit-ok, length-with_bit, with_bit-IsBytes,
  bit_at-with_bit,
}
use create_an_os.Mem.Paging.{
  Frames, page_table_start, page_table_end, frame_count, page_vir_to_phy, page_phy_to_vir, zeroed,
  take_frame, search_frame, sys_alloc_page_frame, sys_free_page_frame,
}

-- The bitmap covers the frames.
pub record IsValid (frames : Frames) : Type 0 where
  pub storage : 8 * length frames.page_bitmap ≡ frame_count
  pub bytes : IsBytes frames.page_bitmap

abbrev pub IsFree : Frames → ℕ → Type 0
IsFree frames j = bit_at frames.page_bitmap j ≡ 0

abbrev pub frame_addr : ℕ → ℕ
frame_addr j = page_table_start + j * 0x1000

-- The kernel's two address spaces for its own pages: each translation undoes the other.
pub page_phy_to_vir-page_vir_to_phy :
    (addr : ℕ)
    → addr < 2 ^ 32
    → (page_phy_to_vir (page_vir_to_phy addr) ≡ addr)
      × (page_vir_to_phy (page_phy_to_vir addr) ≡ addr)
unfolding page_phy_to_vir page_vir_to_phy
page_phy_to_vir-page_vir_to_phy addr h = omega arith

-- The state after frame `j` is handed out.
abbrev pub taken : ℕ → Frames → Frames
taken j frames = record {
  page_bitmap = with_bit frames.page_bitmap j 1;
  word = zeroed (frame_addr j) frames.word;
}

take_frame_lem :
    (j : ℕ) (frames : Frames)
    → IsValid frames
    → j < frame_count
    → take_frame j frames ≡ ok (page_vir_to_phy (frame_addr j), taken j frames)
unfolding take_frame
take_frame_lem j frames v h =
    let page : (page_table_start + j * 0x1000) % 2 ^ 32 ≡ frame_addr j = omega arith in
    rw (set_bit-ok frames.page_bitmap j 1 (omega (arith, v.storage)), page)

search_frame_lem :
    (rounds i j : ℕ) (frames : Frames)
    → IsValid frames
    → i ≤ j
    → j < i + rounds
    → i + rounds ≤ frame_count
    → IsFree frames j
    → ((k : ℕ) → i ≤ k → k < j → ¬ IsFree frames k)
    → search_frame rounds i frames ≡ ok (page_vir_to_phy (frame_addr j), taken j frames)
unfolding search_frame
search_frame_lem zero i j frames v low high all free least = absurd (omega arith)
search_frame_lem (suc rounds) i j frames v low high all free least = elim (ℕ_discrete i j) [
  | yes e ↦
      rw (get_bit-ok frames.page_bitmap i (omega (arith, v.storage)), e, free)
        (take_frame_lem j frames v (omega arith))
  | no ne ↦
      let used : bit_at frames.page_bitmap i ≡ 1 =
        omega (arith, bit_at-lt frames.page_bitmap i, least i (omega arith) (omega arith)) in
      rw (get_bit-ok frames.page_bitmap i (omega (arith, v.storage)), used)
        (search_frame_lem rounds (i + 1) j frames v (omega arith) (omega arith) (omega arith) free
          (λ k p q. least k (omega arith) q))
]

search_frame-hang :
    (rounds i : ℕ) (frames : Frames)
    → IsValid frames
    → i + rounds ≤ frame_count
    → ((k : ℕ) → k < frame_count → ¬ IsFree frames k)
    → search_frame rounds i frames ≡ hang
unfolding search_frame
search_frame-hang zero i frames v all full = refl
search_frame-hang (suc rounds) i frames v all full =
    let used : bit_at frames.page_bitmap i ≡ 1 =
      omega (arith, bit_at-lt frames.page_bitmap i, full i (omega arith)) in
    rw (get_bit-ok frames.page_bitmap i (omega (arith, v.storage)), used)
      (search_frame-hang rounds (i + 1) frames v (omega arith) full)

-- What handing out frame `j` promises.
pub record HandsOut (j : ℕ) (frames : Frames) (page : ℕ) (frames' : Frames) : Type 0 where
  pub address : page_phy_to_vir page ≡ frame_addr j
  pub below_end : frame_addr j + 0x1000 ≤ page_table_end
  pub valid : IsValid frames'
  pub bits :
      (k : ℕ) → bit_at frames'.page_bitmap k ≡ (if j == k then 1 else bit_at frames.page_bitmap k)
  pub cleared : (a : ℕ) → frame_addr j ≤ a → a < frame_addr j + 0x1000 → frames'.word a ≡ 0
  pub kept :
      (a : ℕ)
      → ¬ ((frame_addr j ≤ a) × (a < frame_addr j + 0x1000))
      → frames'.word a ≡ frames.word a

-- The frame that the allocator hands out, and the state that it leaves.
pub sys_alloc_page_frame_lem :
    (j : ℕ) (frames : Frames)
    → IsValid frames
    → j < frame_count
    → IsFree frames j
    → ((k : ℕ) → k < j → ¬ IsFree frames k)
    → sys_alloc_page_frame frames ≡ ok (page_vir_to_phy (frame_addr j), taken j frames)
unfolding sys_alloc_page_frame
sys_alloc_page_frame_lem j frames v h free least =
    search_frame_lem frame_count 0 j frames v (omega arith) (omega arith) (omega arith) free
      (λ k p q. least k q)

-- With a bitmap that covers the frames: if frame `j` is the lowest that is free, the allocator
-- returns its physical address, marks it and no other, clears its words and no others, and stays
-- inside of the page table area.
pub sys_alloc_page_frame-HandsOut :
    (j : ℕ) (frames : Frames)
    → IsValid frames
    → j < frame_count
    → IsFree frames j
    → ((k : ℕ) → k < j → ¬ IsFree frames k)
    → (page : ℕ) × (frames' : Frames) × (sys_alloc_page_frame frames ≡ ok (page, frames'))
      × HandsOut j frames page frames'
sys_alloc_page_frame-HandsOut j frames v h free least = (
  page_vir_to_phy (frame_addr j),
  taken j frames,
  sys_alloc_page_frame_lem j frames v h free least,
  record {
    address = (page_phy_to_vir-page_vir_to_phy (frame_addr j) (omega arith)).0;
    below_end = omega arith;
    valid = record {
      storage = omega (arith, length-with_bit frames.page_bitmap j 1, v.storage);
      bytes = with_bit-IsBytes frames.page_bitmap j 1 v.bytes (omega arith);
    };
    bits = λ k.
        bit_at-with_bit frames.page_bitmap j 1 v.bytes (omega arith) k (omega (arith, v.storage));
    cleared = λ a p q. ground arith;
    kept = λ a out. ground arith;
  },
)

-- With no free frame the allocator never returns.
pub sys_alloc_page_frame-hang :
    (frames : Frames)
    → IsValid frames
    → ((k : ℕ) → k < frame_count → ¬ IsFree frames k)
    → sys_alloc_page_frame frames ≡ hang
unfolding sys_alloc_page_frame
sys_alloc_page_frame-hang frames v full =
    search_frame-hang frame_count 0 frames v (omega arith) full

-- Freeing any address within frame `j` clears that bit.
pub sys_free_page_frame_lem :
    (j addr : ℕ) (frames : Frames)
    → IsValid frames
    → j < frame_count
    → frame_addr j ≤ addr
    → addr < frame_addr j + 0x1000
    → sys_free_page_frame addr frames
      ≡ ok (record frames { page_bitmap = with_bit frames.page_bitmap j 0 })
unfolding sys_free_page_frame
sys_free_page_frame_lem j addr frames v h low high =
    let index : (addr + 2 ^ 32 - page_table_start) % 2 ^ 32 / 0x1000 ≡ j = omega arith in
    rw (index, set_bit-ok frames.page_bitmap j 0 (omega (arith, v.storage)))

pub freed-IsValid :
    (j : ℕ) (frames : Frames)
    → IsValid frames
    → IsValid (record frames { page_bitmap = with_bit frames.page_bitmap j 0 })
freed-IsValid j frames v = record {
  storage = omega (arith, length-with_bit frames.page_bitmap j 0, v.storage);
  bytes = with_bit-IsBytes frames.page_bitmap j 0 v.bytes (omega arith);
}

-- A frame that is handed out and given back by its virtual address is free again, and every other
-- frame is as it was before.
pub sys_free_page_frame-sys_alloc_page_frame :
    (j : ℕ) (frames : Frames)
    → IsValid frames
    → j < frame_count
    → IsFree frames j
    → ((k : ℕ) → k < j → ¬ IsFree frames k)
    → (page : ℕ) × (mid after : Frames) × (sys_alloc_page_frame frames ≡ ok (page, mid))
      × (sys_free_page_frame (page_phy_to_vir page) mid ≡ ok after)
      × ((k : ℕ) → bit_at after.page_bitmap k ≡ bit_at frames.page_bitmap k)
sys_free_page_frame-sys_alloc_page_frame j frames v h free least =
    let (page, mid, e, out) = sys_alloc_page_frame-HandsOut j frames v h free least in
    (
      page,
      mid,
      record mid { page_bitmap = with_bit mid.page_bitmap j 0 },
      e,
      rw out.address
          (sys_free_page_frame_lem j (frame_addr j) mid out.valid h (omega arith) (omega arith)),
      λ k. ground (
        arith,
        free,
        bit_at-with_bit mid.page_bitmap j 0 out.valid.bytes (omega arith) k
            (omega (arith, out.valid.storage)),
        out.bits k,
      ),
    )
