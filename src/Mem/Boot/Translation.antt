-- ===== src/Mem/Boot/Translation.antt =====
-- Where the kernel's addresses lead once its page tables are set up.
use create_an_os.Prelude.{
  ℕ, zero, suc, ◌+◌, ◌-◌, ◌*◌, ◌/◌, ◌%◌, ◌^◌, ◌≤◌, ◌<◌, ◌≡◌, refl, sym, ap, ◌∙◌, ◌⊎◌, inl, Option,
  none, some, Bool, true, ◌&&◌, ◌==◌, if◌then◌else◌, bit_and, bit_or, arith, ℕ_discrete, ok,
  replicate, read, write, ◌∷◌,
}
use create_an_os.Prelude.Bits.{bit_and_field, bit_and_mask, bit_or-shifted}
use create_an_os.Common.Bitmap.{set_bit, byte_with_bit}
use create_an_os.Common.Bitmap.Laws.{IsBytes-replicate}
use create_an_os.Io.Terminal.{store}
use create_an_os.Mem.Paging.{Frames, page_table_start, page_vir_to_phy, page_phy_to_vir}
use create_an_os.Mem.Paging.FrameAlloc.{IsValid}
use create_an_os.Mem.Fault.{pde_slot, pte_slot, table_of}
use create_an_os.Mem.Boot.{fill_table, kernel_directory, init_paging}

-- The physical address that the processor finds for a virtual one, through the directory at `pde`;
-- there is none if the entry of the directory or that of the table is not present.
abbrev pub translate : ℕ → (ℕ → ℕ) → ℕ → Option ℕ
translate pde word vir_addr =
    let directory : ℕ = word (pde_slot pde vir_addr) in
    let entry : ℕ = word (pte_slot (table_of directory) vir_addr) in
    if bit_and directory 1 == 1 && bit_and entry 1 == 1
    then some (bit_and entry 0xfffff000 + vir_addr % 2 ^ 12)
    else none

-- Both entries let the kernel write.
abbrev pub is_writable : ℕ → (ℕ → ℕ) → ℕ → Bool
is_writable pde word vir_addr =
    let directory : ℕ = word (pde_slot pde vir_addr) in
    let entry : ℕ = word (pte_slot (table_of directory) vir_addr) in
    bit_and directory 0b10 == 0b10 && bit_and entry 0b10 == 0b10

fill_table_lem :
    (n i addr base : ℕ) (word : ℕ → ℕ)
    → ((k : ℕ)
        → i ≤ k
        → k < i + n
        → fill_table n i addr base word (base + 4 * k) ≡ bit_or (addr + 0x1000 * (k - i)) 0b11)
      × ((a : ℕ)
          → (a < base + 4 * i) ⊎ (base + 4 * (i + n) ≤ a)
          → fill_table n i addr base word a ≡ word a)
unfolding fill_table
fill_table_lem zero i addr base word = ((λ k low high. absurd (omega arith)), λ a out. refl)
fill_table_lem (suc n) i addr base word =
    let next = store word (base + 4 * i) (bit_or addr 0b11) in
    let (filled, kept) = fill_table_lem n (i + 1) (addr + 0x1000) base next in
    (
      λ k low high. elim (ℕ_discrete i k) [
        | yes e ↦
            let first : addr + 0x1000 * (k - i) ≡ addr = omega arith in
            ap (λ x. fill_table n (i + 1) (addr + 0x1000) base next (base + 4 * x)) (sym e)
            ∙ kept (base + 4 * i) (inl (omega arith))
            ∙ rw first (ground arith)
        | no ne ↦
            let later : addr + 0x1000 + 0x1000 * (k - (i + 1)) ≡ addr + 0x1000 * (k - i) =
              omega arith in
            filled k (omega arith) (omega arith) ∙ ap (λ x. bit_or x 0b11) later
      ],
      λ a out. kept a (ground (arith, out)) ∙ ground (arith, out),
    )

-- A page with its two flags, as the page alone.
page_of-entry : (p : ℕ) → p < 2 ^ 20 → bit_and (bit_or (p * 2 ^ 12) 0b11) 0xfffff000 ≡ p * 2 ^ 12
page_of-entry p h =
    rw (bit_or-shifted 12 p 3 (omega arith), bit_and_field 12 20 (p * 2 ^ 12 + 3)) (omega arith)

-- Its two flags.
flags-entry :
    (p : ℕ)
    → ((bit_and (bit_or (p * 2 ^ 12) 0b11) 1 == 1) ≡ true)
      × ((bit_and (bit_or (p * 2 ^ 12) 0b11) 0b10 == 0b10) ≡ true)
flags-entry p =
    let low : (p * 2 ^ 12 + 3) % 2 ≡ 1 = omega arith in
    let high : (p * 2 ^ 12 + 3) / 2 % 2 ≡ 1 = omega arith in
    rw
      (
        bit_or-shifted 12 p 3 (omega arith),
        bit_and_mask 1 (p * 2 ^ 12 + 3),
        bit_and_field 1 1 (p * 2 ^ 12 + 3),
        low,
        high,
      )
      (refl, refl)

-- The tables of the kernel, over any words.
abbrev booted : (ℕ → ℕ) → ℕ → ℕ
booted word =
    fill_table 512 0 0x100000 (page_table_start + 0x2000)
      (fill_table 256 0 0 (page_table_start + 0x1000) (kernel_directory word))

low_entry : (word : ℕ → ℕ) → booted word (page_table_start + 4 * 768) ≡ 0x221003
unfolding kernel_directory page_vir_to_phy
low_entry word =
    let (filled, kept) =
      fill_table_lem 512 0 0x100000 (page_table_start + 0x2000)
        (fill_table 256 0 0 (page_table_start + 0x1000) (kernel_directory word)) in
    let (filled', kept') =
      fill_table_lem 256 0 0 (page_table_start + 0x1000) (kernel_directory word) in
    kept (page_table_start + 4 * 768) (inl (omega arith))
    ∙ kept' (page_table_start + 4 * 768) (inl (omega arith))

high_entry : (word : ℕ → ℕ) → booted word (page_table_start + 4 * 769) ≡ 0x222003
unfolding kernel_directory page_vir_to_phy
high_entry word =
    let (filled, kept) =
      fill_table_lem 512 0 0x100000 (page_table_start + 0x2000)
        (fill_table 256 0 0 (page_table_start + 0x1000) (kernel_directory word)) in
    let (filled', kept') =
      fill_table_lem 256 0 0 (page_table_start + 0x1000) (kernel_directory word) in
    kept (page_table_start + 4 * 769) (inl (omega arith))
    ∙ kept' (page_table_start + 4 * 769) (inl (omega arith))

low_page :
    (word : ℕ → ℕ) (k : ℕ)
    → k < 256
    → booted word (page_table_start + 0x1000 + 4 * k) ≡ bit_or (k * 2 ^ 12) 0b11
low_page word k h =
    let (filled, kept) =
      fill_table_lem 512 0 0x100000 (page_table_start + 0x2000)
        (fill_table 256 0 0 (page_table_start + 0x1000) (kernel_directory word)) in
    let (filled', kept') =
      fill_table_lem 256 0 0 (page_table_start + 0x1000) (kernel_directory word) in
    kept (page_table_start + 0x1000 + 4 * k) (inl (omega arith))
    ∙ filled' k (omega arith) h
    ∙ ap (λ x. bit_or x 0b11) (omega arith)

high_page :
    (word : ℕ → ℕ) (k : ℕ)
    → k < 512
    → booted word (page_table_start + 0x2000 + 4 * k) ≡ bit_or ((0x100 + k) * 2 ^ 12) 0b11
high_page word k h =
    let (filled, kept) =
      fill_table_lem 512 0 0x100000 (page_table_start + 0x2000)
        (fill_table 256 0 0 (page_table_start + 0x1000) (kernel_directory word)) in
    filled k (omega arith) h ∙ ap (λ x. bit_or x 0b11) (omega arith)

-- The steps of a translation.
translate-through :
    (word : ℕ → ℕ) (vir_addr i entry table page : ℕ)
    → vir_addr / 2 ^ 22 ≡ i
    → word (page_table_start + 4 * i) ≡ entry
    → table_of entry ≡ table
    → word (table + 4 * (vir_addr / 2 ^ 12 % 2 ^ 10)) ≡ bit_or (page * 2 ^ 12) 0b11
    → page < 2 ^ 20
    → (bit_and entry 1 == 1) ≡ true
    → (bit_and entry 0b10 == 0b10) ≡ true
    → (translate page_table_start word vir_addr ≡ some (page * 2 ^ 12 + vir_addr % 2 ^ 12))
      × (is_writable page_table_start word vir_addr ≡ true)
translate-through word vir_addr i entry table page ei ee et ep h here may =
    let (present, writable) = flags-entry page in
    rw
      (
        bit_and_mask 10 (vir_addr / 2 ^ 12),
        ei,
        ee,
        et,
        ep,
        here,
        may,
        present,
        writable,
        page_of-entry page h,
      )
      (refl, refl)

-- From whatever memory it starts, setting up paging returns, with a bitmap that covers the frames
-- and no page shared; the first mebibyte of memory is then found from 0xc0000000 on, and the two
-- above it from 0xc0400000 on, by entries that are present and let the kernel write, and there the
-- kernel's own translation between virtual and physical addresses agrees with the processor's.
pub init_paging-translates :
    (word : ℕ → ℕ)
    → (frames : Frames) × (init_paging word ≡ ok (frames, replicate 128 (0, 0)))
      × IsValid frames
      × ((x : ℕ)
          → x < 0x100000
          → (translate page_table_start frames.word (0xc0000000 + x) ≡ some x)
            × (is_writable page_table_start frames.word (0xc0000000 + x) ≡ true))
      × ((x : ℕ)
          → x < 0x200000
          → (translate page_table_start frames.word (0xc0400000 + x) ≡ some (0x100000 + x))
            × (is_writable page_table_start frames.word (0xc0400000 + x) ≡ true)
            × (page_vir_to_phy (0xc0400000 + x) ≡ 0x100000 + x))
unfolding init_paging page_vir_to_phy
init_paging-translates word = (
  record { page_bitmap = 0b111 ∷ replicate 27 0; word = booted word },
  unfold set_bit byte_with_bit read write in refl,
  record { storage = refl; bytes = (omega arith, IsBytes-replicate 27) },
  λ x h.
      let (found, writable) =
        translate-through (booted word) (0xc0000000 + x) 768 0x221003 (page_table_start + 0x1000)
          (x / 2 ^ 12) (omega arith) (low_entry word) (unfold page_phy_to_vir in refl)
          (ap (λ k. booted word (page_table_start + 0x1000 + 4 * k)) (omega arith)
            ∙ low_page word (x / 2 ^ 12) (omega arith))
          (omega arith) refl refl in
      (found ∙ ap some (omega arith), writable),
  λ x h.
      let (found, writable) =
        translate-through (booted word) (0xc0400000 + x) 769 0x222003 (page_table_start + 0x2000)
          (0x100 + x / 2 ^ 12) (omega arith) (high_entry word) (unfold page_phy_to_vir in refl)
          (ap (λ k. booted word (page_table_start + 0x2000 + 4 * k)) (omega arith)
            ∙ high_page word (x / 2 ^ 12) (omega arith))
          (omega arith) refl refl in
      (found ∙ ap some (omega arith), writable, omega arith),
)
