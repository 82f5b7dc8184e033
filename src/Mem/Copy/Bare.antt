-- ===== src/Mem/Copy/Bare.antt =====
-- A process that has no page tables of its own, as the kernel's processes at their start.
use create_an_os.Prelude.{ℕ, zero, suc, ◌+◌, ◌*◌, ◌≤◌, ◌<◌, ◌≡◌, refl, ◌∙◌, arith, bit_and, ok}
use create_an_os.Io.Terminal.{store}
use create_an_os.Mem.Paging.{
  Frames, page_table_start, frame_count, page_vir_to_phy, page_phy_to_vir, zeroed,
}
use create_an_os.Mem.Paging.FrameAlloc.{
  IsValid, IsFree, frame_addr, taken, sys_alloc_page_frame_lem,
}
use create_an_os.Mem.Fault.{Space, set_word}
use create_an_os.Mem.Copy.{copy_words, kernel_words, copy_tables, sys_copy_pages}

-- No entry of the directory from `i` on is present, `n` being looked at.
abbrev pub IsBare : ℕ → ℕ → ℕ → (ℕ → ℕ) → Type 0
IsBare n spde i word = (k : ℕ) → i ≤ k → k < i + n → bit_and (word (spde + 4 * k)) 1 ≡ 0

store-absent : (word : ℕ → ℕ) (a b : ℕ) → bit_and (word b) 1 ≡ 0 → bit_and (store word a 0 b) 1 ≡ 0
store-absent word a b h = ground (arith, h)

zeroed-absent : (word : ℕ → ℕ) (a b : ℕ) → bit_and (word b) 1 ≡ 0 → bit_and (zeroed a word b) 1 ≡ 0
zeroed-absent word a b h = ground (arith, h)

store-below : (word : ℕ → ℕ) (a v b : ℕ) → b < a → store word a v b ≡ word b
store-below word a v b h = ground arith

zeroed-below : (word : ℕ → ℕ) (a b : ℕ) → b < a → zeroed a word b ≡ word b
zeroed-below word a b h = ground arith

copy_tables-IsBare :
    (n spde dpde i : ℕ) (s : Space)
    → IsBare n spde i s.frames.word
    → (s' : Space) × (copy_tables n spde dpde i s ≡ ok s')
      × ((b : ℕ) → b < dpde → s'.frames.word b ≡ s.frames.word b)
unfolding copy_tables
copy_tables-IsBare zero spde dpde i s bare = (s, refl, λ b low. refl)
copy_tables-IsBare (suc n) spde dpde i s bare =
    let next : Space = record s { frames = set_word (dpde + 4 * i) 0 s.frames } in
    let (s', e, kept) = copy_tables-IsBare n spde dpde (i + 1) next (λ k low high.
      store-absent s.frames.word (dpde + 4 * i) (spde + 4 * k)
        (bare k (omega arith) (omega arith))) in
    (
      s',
      rw (bare i (omega arith) (omega arith)) e,
      λ b low. kept b low ∙ store-below s.frames.word (dpde + 4 * i) 0 b (omega arith),
    )

dpde-high :
    (j : ℕ) → j < frame_count → page_table_start ≤ page_phy_to_vir (page_vir_to_phy (frame_addr j))
unfolding page_phy_to_vir page_vir_to_phy
dpde-high j h = omega arith

copy_words-below :
    (n i dest src b : ℕ) (word : ℕ → ℕ) → b < dest → copy_words n i dest src word b ≡ word b
unfolding copy_words
copy_words-below zero i dest src b word h = refl
copy_words-below (suc n) i dest src b word h =
    copy_words-below n (i + 1) dest src b _ h
    ∙ store-below word (dest + 4 * i) (word (src + 4 * i)) b (omega arith)

kernel_words-below :
    (dpde spde b : ℕ) (frames : Frames)
    → b < dpde
    → (kernel_words dpde spde frames).word b ≡ frames.word b
unfolding kernel_words
kernel_words-below dpde spde b frames h =
    copy_words-below 256 0 (dpde + 4 * 768) (spde + 4 * 768) b frames.word (omega arith)

-- Such a process is copied if a frame is left for the new directory, and no word in front of the
-- frames changes.
pub sys_copy_pages-IsBare :
    (spde j : ℕ) (s : Space)
    → IsValid s.frames
    → j < frame_count
    → IsFree s.frames j
    → ((k : ℕ) → k < j → ¬ IsFree s.frames k)
    → IsBare 768 spde 0 s.frames.word
    → (pde : ℕ) × (s' : Space) × (sys_copy_pages spde s ≡ ok (pde, s'))
      × ((b : ℕ) → b < page_table_start → s'.frames.word b ≡ s.frames.word b)
unfolding sys_copy_pages
sys_copy_pages-IsBare spde j s v h free least bare =
    let next : Space = record s { frames = taken j s.frames } in
    let dpde : ℕ = page_phy_to_vir (page_vir_to_phy (frame_addr j)) in
    let high : page_table_start ≤ dpde = dpde-high j h in
    let (s', e, kept) =
      copy_tables-IsBare 768 spde (page_phy_to_vir (page_vir_to_phy (frame_addr j))) 0 next
        (λ k low high.
          zeroed-absent s.frames.word (frame_addr j) (spde + 4 * k) (bare k low high)) in
    (
      page_phy_to_vir (page_vir_to_phy (frame_addr j)),
      record s' {
        frames = kernel_words (page_phy_to_vir (page_vir_to_phy (frame_addr j))) spde s'.frames;
      },
      rw (sys_alloc_page_frame_lem j s.frames v h free least, e) refl,
      λ b low.
          kernel_words-below dpde spde b s'.frames (omega arith)
          ∙ kept b (omega arith)
          ∙ zeroed-below s.frames.word (frame_addr j) b (omega arith),
    )
