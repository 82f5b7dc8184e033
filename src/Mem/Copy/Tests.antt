-- ===== src/Mem/Copy/Tests.antt =====
-- A page table with one page, shared with a new process.
use create_an_os.Prelude.{
  ℕ, zero, suc, ◌+◌, ◌*◌, ◌≤◌, ◌<◌, ◌≡◌, refl, sym, arith, inl, inr, [], ◌∷◌, replicate, ◌==◌,
  if◌then◌else◌, ok,
}
use mathlib.Core.Path.{subst}
use create_an_os.Common.Bitmap.{byte_bit}
use create_an_os.Common.Bitmap.Laws.{IsBytes-replicate, bit_at}
use create_an_os.Mem.Alloc.{init_memory}
use create_an_os.Mem.Paging.{page_phy_to_vir}
use create_an_os.Mem.Paging.FrameAlloc.{IsValid, IsFree}
use create_an_os.Mem.Paging.Shares.{shares}
use create_an_os.Mem.Fault.{Space}
use create_an_os.Mem.Copy.{copy_table}
use create_an_os.Mem.Copy.Shared.{CanShare, IsReal, entries, present, uses}
use create_an_os.Mem.Copy.Table.{IsCopied, source, copy_table-IsCopied}

-- The directory at 0xc0523000 names the table at 0xc0524000, whose entry 1 is page 0x400000; the
-- new directory is at 0xc0525000.
abbrev space : Space
space = record {
  frames = record {
    page_bitmap = 0b111111 ∷ replicate 27 0;
    word = λ a. if a == 0xc0523000 then 0x224007 else if a == 0xc0524004 then 0x400007 else 0;
  };
  memory = init_memory;
  copies = (0, 0) ∷ [];
  pages = λ p. replicate 0x1000 1;
}

space_IsValid : IsValid space.frames
space_IsValid = record { storage = refl; bytes = (omega arith, IsBytes-replicate 27) }

sixth-IsFree : IsFree space.frames 6
unfolding bit_at byte_bit
sixth-IsFree = refl

lower_used : (k : ℕ) → k < 6 → ¬ IsFree space.frames k
unfolding bit_at byte_bit
lower_used zero h = λ e. omega arith
lower_used (suc zero) h = λ e. omega arith
lower_used (suc (suc zero)) h = λ e. omega arith
lower_used (suc (suc (suc zero))) h = λ e. omega arith
lower_used (suc (suc (suc (suc zero)))) h = λ e. omega arith
lower_used (suc (suc (suc (suc (suc zero))))) h = λ e. omega arith
lower_used (suc (suc (suc (suc (suc (suc k)))))) h = absurd (omega arith)

table_address : source 0xc0523000 0 space ≡ 0xc0524000
unfolding page_phy_to_vir
table_address = refl

-- Behind entry 1 nothing is present.
absent_entry : (j : ℕ) → 2 ≤ j → j < 1024 → space.frames.word (0xc0524000 + 4 * j) ≡ 0
absent_entry j low high = ground (arith, low, high)

absent_entries :
    (n j : ℕ)
    → 2 ≤ j
    → j + n ≤ 1024
    → IsReal (entries n 0xc0524000 j space.frames.word)
      × (present (entries n 0xc0524000 j space.frames.word) ≡ 0)
      × ((page : ℕ) → uses page (entries n 0xc0524000 j space.frames.word) ≡ 0)
absent_entries zero j low high = (tt, refl, λ page. refl)
absent_entries (suc n) j low high =
    let off : space.frames.word (0xc0524000 + 4 * j) ≡ 0 = absent_entry j low (omega arith) in
    let (real, none_present, unused) = absent_entries n (j + 1) (omega arith) (omega arith) in
    rw off ((inl refl, real), omega (arith, none_present), λ page. omega (arith, unused page))

entries-CanShare :
    (n : ℕ)
    → 2 + n ≤ 1024
    → CanShare (entries (suc (suc n)) 0xc0524000 0 space.frames.word) space.copies
entries-CanShare n h =
    let (real, none_present, unused) = absent_entries n 2 (omega arith) h in
    record {
      counted = (inl refl, tt);
      real = (inl refl, (inr (λ e. omega arith), real));
      enough = omega (arith, none_present);
      small = λ page nz. unfold shares in ground (arith, unused page);
    }

table_CanShare :
    CanShare (entries 1024 (source 0xc0523000 0 space) 0 space.frames.word) space.copies
table_CanShare =
    subst (λ t. CanShare (entries 1024 t 0 space.frames.word) space.copies) (sym table_address)
      (entries-CanShare 1022 (omega arith))

copy_table-IsCopied_example :
    (s' : Space) × (copy_table 0xc0523000 0xc0525000 0 space ≡ ok s')
    × IsCopied 0xc0523000 0xc0525000 0 6 space s'
copy_table-IsCopied_example =
    copy_table-IsCopied 0xc0523000 0xc0525000 0 6 space space_IsValid (omega arith) sixth-IsFree
      lower_used
      (record {
        directories = λ e. omega arith;
        old_entry = inl (omega arith);
        new_entry = inl (omega arith);
        behind_source = rw table_address (inr (omega arith));
        tables = rw table_address (inr (omega arith));
      })
      table_CanShare
