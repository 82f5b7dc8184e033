-- ===== src/Fs/Sectors/Fresh.antt =====
-- `alloc_sector` hands out the first free sector, and marks it.
use create_an_os.Prelude.{
  ℕ, zero, suc, ◌+◌, ◌-◌, ◌*◌, ◌/◌, ◌%◌, ◌≤◌, ◌<◌, ◌≡◌, ◌≢◌, refl, sym, ap, ◌∙◌, arith, List, none,
  some, ◌==◌, if◌then◌else◌, ==_iff, ℕ_discrete, length, ok,
}
use create_an_os.Common.Bitmap.Laws.{
  IsBytes, bit_at, with_bit, get_bit-ok, set_bit-ok, length-with_bit, with_bit-IsBytes,
  bit_at-with_bit,
}
use create_an_os.Fs.Disk.{Fs, minus_one, write_sector}
use create_an_os.Fs.Sectors.{find_bit, search_sector, alloc_sector}

-- Every sector of the map has 512 bytes.
pub record IsMapped (fs : Fs) : Type 0 where
  pub order : fs.meta.sector_map_start ≤ fs.meta.inode_map_start
  pub size :
      (b : ℕ)
      → fs.meta.sector_map_start ≤ b
      → b < fs.meta.inode_map_start
      → length (fs.disk b) ≡ 512
  pub bytes :
      (b : ℕ) → fs.meta.sector_map_start ≤ b → b < fs.meta.inode_map_start → IsBytes (fs.disk b)

-- The bit of sector `s`, and how many sectors the map counts.
abbrev pub bit_of : Fs → ℕ → ℕ
bit_of fs s = bit_at (fs.disk (fs.meta.sector_map_start + s / 512)) (s % 512)

abbrev pub capacity : Fs → ℕ
capacity fs = (fs.meta.inode_map_start - fs.meta.sector_map_start) * 512

module _ (map : List ℕ) (size : length map ≡ 512) where
  find_bit-some :
      (left i j : ℕ)
      → i ≤ j
      → j < i + left
      → i + left ≤ 512
      → bit_at map j ≡ 0
      → ((k : ℕ) → i ≤ k → k < j → bit_at map k ≡ 1)
      → find_bit left i map ≡ ok (some j)
  unfolding find_bit
  find_bit-some zero i j low high all free used = absurd (omega arith)
  find_bit-some (suc left) i j low high all free used = elim (ℕ_discrete i j) [
    | yes e ↦ rw (get_bit-ok map i (omega arith), e, free) refl
    | no ne ↦
        rw (get_bit-ok map i (omega arith), used i (omega arith) (omega arith))
          (find_bit-some left (i + 1) j (omega arith) (omega arith) (omega arith) free
            (λ k p q. used k (omega arith) q))
  ]

  find_bit-none :
      (left i : ℕ)
      → i + left ≤ 512
      → ((k : ℕ) → k < 512 → bit_at map k ≡ 1)
      → find_bit left i map ≡ ok none
  unfolding find_bit
  find_bit-none zero i all used = refl
  find_bit-none (suc left) i all used =
      rw (get_bit-ok map i (omega arith), used i (omega arith))
        (find_bit-none left (i + 1) (omega arith) used)

-- The file system with sector `s` marked.
abbrev marked : ℕ → Fs → Fs
marked s fs =
    let block = fs.meta.sector_map_start + s / 512 in
    record fs { disk = write_sector block (with_bit (fs.disk block) (s % 512) 1) fs.disk }

module _ (fs : Fs) (v : IsMapped fs) where
  in_map :
      (b k : ℕ)
      → fs.meta.sector_map_start ≤ b
      → k < 512
      → (b - fs.meta.sector_map_start) * 512 + k < (b - fs.meta.sector_map_start + 1) * 512
  in_map b k low h = omega arith

  -- The bit of a sector by its block in the map.
  bit_by_block :
      (b k : ℕ)
      → fs.meta.sector_map_start ≤ b
      → k < 512
      → bit_of fs ((b - fs.meta.sector_map_start) * 512 + k) ≡ bit_at (fs.disk b) k
  bit_by_block b k low h =
      let s = (b - fs.meta.sector_map_start) * 512 + k in
      let block : fs.meta.sector_map_start + s / 512 ≡ b = omega arith in
      let bit : s % 512 ≡ k = omega arith in rw (block, bit) refl

  search_sector-here :
      (left block s : ℕ)
      → block ≡ fs.meta.sector_map_start + s / 512
      → block < fs.meta.inode_map_start
      → bit_of fs s ≡ 0
      → ((r : ℕ) → r < s → bit_of fs r ≡ 1)
      → search_sector (suc left) block fs ≡ ok (s, marked s fs)
  unfolding search_sector
  search_sector-here left block s at inside free used =
      let size = v.size block (omega arith) inside in
      let found : find_bit 512 0 (fs.disk block) ≡ ok (some (s % 512)) =
        find_bit-some (fs.disk block) size 512 0 (s % 512) (omega arith) (omega arith) (omega arith)
          (ap (λ b. bit_at (fs.disk b) (s % 512)) at ∙ free)
          (λ k low high.
            sym (bit_by_block block k (omega arith) (omega arith))
            ∙ used ((block - fs.meta.sector_map_start) * 512 + k) (omega arith)) in
      let number : (block - fs.meta.sector_map_start) * 512 + s % 512 ≡ s = omega arith in
      rw (found, set_bit-ok (fs.disk block) (s % 512) 1 (omega arith), number)
        (ap
          (λ b.
            ok (s, record fs { disk = write_sector b (with_bit (fs.disk b) (s % 512) 1) fs.disk }))
          at)

  search_sector-on :
      (left block : ℕ)
      → fs.meta.sector_map_start ≤ block
      → block < fs.meta.inode_map_start
      → ((k : ℕ) → k < 512 → bit_at (fs.disk block) k ≡ 1)
      → search_sector (suc left) block fs ≡ search_sector left (block + 1) fs
  unfolding search_sector
  search_sector-on left block low inside used =
      rw (find_bit-none (fs.disk block) (v.size block low inside) 512 0 (omega arith) used) refl

  search_sector_lem :
      (left block s : ℕ)
      → fs.meta.sector_map_start ≤ block
      → block + left ≡ fs.meta.inode_map_start
      → block ≤ fs.meta.sector_map_start + s / 512
      → fs.meta.sector_map_start + s / 512 < fs.meta.inode_map_start
      → bit_of fs s ≡ 0
      → ((r : ℕ) → r < s → bit_of fs r ≡ 1)
      → search_sector left block fs ≡ ok (s, marked s fs)
  search_sector_lem zero block s low end before inside free used = absurd (omega arith)
  search_sector_lem (suc left) block s low end before inside free used =
      elim (ℕ_discrete block (fs.meta.sector_map_start + s / 512)) [
        | yes at ↦ search_sector-here left block s at (omega arith) free used
        | no ne ↦
            search_sector-on left block low (omega arith) (λ k h.
              sym (bit_by_block block k low h)
              ∙ used ((block - fs.meta.sector_map_start) * 512 + k) (omega arith))
            ∙ search_sector_lem left (block + 1) s (omega arith) (omega arith) (omega arith) inside
                free used
      ]

  search_sector-full :
      (left block : ℕ)
      → fs.meta.sector_map_start ≤ block
      → block + left ≡ fs.meta.inode_map_start
      → ((r : ℕ) → r < capacity fs → bit_of fs r ≡ 1)
      → search_sector left block fs ≡ ok (minus_one, fs)
  search_sector-full zero block low end used = unfold search_sector in refl
  search_sector-full (suc left) block low end used =
      search_sector-on left block low (omega arith) (λ k h.
        sym (bit_by_block block k low h)
        ∙ used ((block - fs.meta.sector_map_start) * 512 + k) (omega arith))
      ∙ search_sector-full left (block + 1) (omega arith) (omega arith) used

-- What handing out sector `s` does: its bit is set and no other's of all bits in the sector of the
-- map that has it, the map stays in order, and no other sector of the disk and no table changes.
pub record Takes (s : ℕ) (fs fs' : Fs) : Type 0 where
  pub mapped : IsMapped fs'
  pub bits : (r : ℕ) → r < capacity fs → bit_of fs' r ≡ (if s == r then 1 else bit_of fs r)
  pub block_bits :
      (i : ℕ)
      → i < 4096
      → bit_at (fs'.disk (fs.meta.sector_map_start + s / 512)) i
        ≡ (if s % 512 == i then 1 else bit_at (fs.disk (fs.meta.sector_map_start + s / 512)) i)
  pub others : (j : ℕ) → j ≢ fs.meta.sector_map_start + s / 512 → fs'.disk j ≡ fs.disk j
  pub tables : fs' ≡ record fs { disk = fs'.disk }

marked-Takes : (s : ℕ) (fs : Fs) → IsMapped fs → s < capacity fs → Takes s fs (marked s fs)
marked-Takes s fs v h =
    let block = fs.meta.sector_map_start + s / 512 in
    let size : length (fs.disk block) ≡ 512 = v.size block (omega arith) (omega (arith, v.order)) in
    let bytes = v.bytes block (omega arith) (omega (arith, v.order)) in
    record {
      mapped = record {
        order = v.order;
        size = λ b low high.
            ground (arith, v.size b low high, length-with_bit (fs.disk block) (s % 512) 1, size);
        bytes = λ b low high. elim (ℕ_discrete block b) [
          | yes e ↦
              rw ((==_iff block b).1 e)
                (with_bit-IsBytes (fs.disk block) (s % 512) 1 bytes (omega arith))
          | no ne ↦ other b ne (v.bytes b low high)
        ];
      };
      bits = λ r hr. elim (ℕ_discrete block (fs.meta.sector_map_start + r / 512)) [
        | yes e ↦
            let test = (==_iff block (fs.meta.sector_map_start + r / 512)).1 e in
            rw test (
              bit_at-with_bit (fs.disk block) (s % 512) 1 bytes (omega arith) (r % 512)
                (omega (arith, size))
              ∙ ground (arith, e))
        | no ne ↦ ground (arith, ne)
      ];
      block_bits = λ i hi.
          let test = (==_iff block block).1 refl in
          rw test (
            bit_at-with_bit (fs.disk block) (s % 512) 1 bytes (omega arith) i
              (omega (arith, size)));
      others = λ j ne. ground (arith, ne);
      tables = refl;
    }
  where
    other :
        (b : ℕ)
        → fs.meta.sector_map_start + s / 512 ≢ b
        → IsBytes (fs.disk b)
        → IsBytes ((marked s fs).disk b)
    other b ne p = ground (arith, ne, p)

-- The sectors of the map are whole. If `s` is the first free sector that the map counts, the
-- allocator returns it and marks it in the map on the disk: of the sector of the map that has its
-- bit no other bit changes, and no other sector and no table.
pub alloc_sector-Takes :
    (s : ℕ) (fs : Fs)
    → IsMapped fs
    → s < capacity fs
    → bit_of fs s ≡ 0
    → ((r : ℕ) → r < s → bit_of fs r ≡ 1)
    → (fs' : Fs) × (alloc_sector fs ≡ ok (s, fs')) × Takes s fs fs'
unfolding alloc_sector
alloc_sector-Takes s fs v h free used = (
  marked s fs,
  search_sector_lem fs v (fs.meta.inode_map_start - fs.meta.sector_map_start)
      fs.meta.sector_map_start s (omega arith) (omega (arith, v.order)) (omega arith) (omega arith)
      free used,
  marked-Takes s fs v h,
)

-- With no sector free the allocator returns -1 and leaves the disk as it is.
pub alloc_sector-full :
    (fs : Fs)
    → IsMapped fs
    → ((r : ℕ) → r < capacity fs → bit_of fs r ≡ 1)
    → alloc_sector fs ≡ ok (minus_one, fs)
unfolding alloc_sector
alloc_sector-full fs v used =
    search_sector-full fs v (fs.meta.inode_map_start - fs.meta.sector_map_start)
      fs.meta.sector_map_start (omega arith) (omega (arith, v.order)) used
