-- ===== src/Mem/Tests.antt =====
-- The allocators and the count of shared pages at concrete inputs.
use create_an_os.Prelude.{ℕ, suc, zero, ◌+◌, ◌*◌, ◌<◌, ◌≡◌, refl, arith, [], ◌∷◌, replicate, ok}
use create_an_os.Common.Bitmap.{byte_bit}
use create_an_os.Common.Bitmap.Laws.{IsBytes-replicate, bit_at}
use create_an_os.Mem.Alloc.{Memory, init_memory}
use create_an_os.Mem.Alloc.Counter.{
  HandedOut, page_run, alloc_pages, init_memory-HandedOut, alloc_pages-run,
}
use create_an_os.Mem.Paging.{Frames, CopyMap}
use create_an_os.Mem.Paging.FrameAlloc.{IsValid, IsFree}

alloc_pages-run_example :
    (m' : Memory) × (alloc_pages 3 init_memory ≡ ok (page_run 0 3, m')) × HandedOut (0 + 3) m'
alloc_pages-run_example = alloc_pages-run 3 0 init_memory init_memory-HandedOut (omega arith)

-- The frames after `init_paging`: three are in use.
abbrev frames : Frames
frames = record { page_bitmap = 0b111 ∷ replicate 27 0; word = λ a. 0 }

frames_IsValid : IsValid frames
frames_IsValid = record { storage = refl; bytes = (omega arith, IsBytes-replicate 27) }

third-IsFree : IsFree frames 3
unfolding bit_at byte_bit
third-IsFree = refl

lower_used : (k : ℕ) → k < 3 → ¬ IsFree frames k
unfolding bit_at byte_bit
lower_used zero h = λ e. omega arith
lower_used (suc zero) h = λ e. omega arith
lower_used (suc (suc zero)) h = λ e. omega arith
lower_used (suc (suc (suc k))) h = absurd (omega arith)

-- One page with two sharers, and an entry that is not in use.
abbrev map : CopyMap
map = (0x4000, 2) ∷ (0, 0) ∷ []

-- `n` pages with two sharers each, then page 0x1000.
abbrev crowded : ℕ → CopyMap
crowded zero = (0x1000, 2) ∷ []
crowded (suc n) = (0x2000 + 0x1000 * n, 2) ∷ crowded n
