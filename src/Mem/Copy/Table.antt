-- ===== src/Mem/Copy/Table.antt =====
-- One page table for the new process: a new frame with the same entries.
use create_an_os.Prelude.{
  ℕ, zero, suc, ◌+◌, ◌-◌, ◌*◌, ◌%◌, ◌^◌, ◌≤◌, ◌<◌, ◌≡◌, ◌≢◌, refl, sym, ap, ◌∙◌, ◌⊎◌, inl, inr,
  bit_or, arith, ◌==◌, if◌then◌else◌, ℕ_discrete, Outcome, ok, ◌>>=◌,
}
use create_an_os.Prelude.Bits.{bit_and_field, bit_or-shifted}
use create_an_os.Io.Terminal.{store}
use create_an_os.Common.Bitmap.Laws.{bit_at, bit_at-with_bit}
use create_an_os.Mem.Paging.{frame_count, page_vir_to_phy, page_phy_to_vir, sys_alloc_page_frame}
use create_an_os.Mem.Paging.FrameAlloc.{
  IsValid, IsFree, frame_addr, sys_alloc_page_frame_lem, taken,
}
use create_an_os.Mem.Paging.Shares.{shares}
use create_an_os.Mem.Fault.{Space, table_of, set_word}
use create_an_os.Mem.Copy.{copy_words, copy_table, share_entries}
use create_an_os.Mem.Copy.Shared.{
  CanShare, IsShared, entries, shared_entries, uses, entries-moved, share_entries_lem,
}

-- Two runs of `n` words do not meet.
abbrev pub Apart : ℕ → ℕ → ℕ → Type 0
Apart n a b = (a + 4 * n ≤ b) ⊎ (b + 4 * n ≤ a)

-- A word is outside of a run.
abbrev pub Outside : ℕ → ℕ → ℕ → Type 0
Outside n a b = (b < a) ⊎ (a + 4 * n ≤ b)

pub copy_words_lem :
    (n i dest src : ℕ) (word : ℕ → ℕ)
    → (dest + 4 * (i + n) ≤ src + 4 * i) ⊎ (src + 4 * (i + n) ≤ dest + 4 * i)
    → ((k : ℕ)
        → i ≤ k
        → k < i + n
        → copy_words n i dest src word (dest + 4 * k) ≡ word (src + 4 * k))
      × ((a : ℕ)
          → (a < dest + 4 * i) ⊎ (dest + 4 * (i + n) ≤ a)
          → copy_words n i dest src word a ≡ word a)
unfolding copy_words
copy_words_lem zero i dest src word apart = ((λ k low high. absurd (omega arith)), λ a out. refl)
copy_words_lem (suc n) i dest src word apart =
    let next = store word (dest + 4 * i) (word (src + 4 * i)) in
    let (copied, kept) = copy_words_lem n (i + 1) dest src next (ground (arith, apart)) in
    (
      λ k low high. elim (ℕ_discrete i k) [
        | yes e ↦
            ap (λ x. copy_words n (i + 1) dest src next (dest + 4 * x)) (sym e)
            ∙ kept (dest + 4 * i) (inl (omega arith))
            ∙ ground (arith, e)
        | no ne ↦ copied k (omega arith) (omega arith) ∙ ground (arith, apart)
      ],
      λ a out. kept a (ground (arith, out)) ∙ ground (arith, out),
    )

-- The frame that a new entry names.
table_of-frame :
    (j : ℕ)
    → j < frame_count
    → table_of (bit_or (page_vir_to_phy (frame_addr j)) 0b111) ≡ frame_addr j
unfolding page_vir_to_phy page_phy_to_vir
table_of-frame j h =
    let frame : (frame_addr j + 2 ^ 32 - 0xc0300000) % 2 ^ 32 ≡ (0x220 + j) * 2 ^ 12 =
      omega arith in
    rw
      (
        frame,
        bit_or-shifted 12 (0x220 + j) 7 (omega arith),
        bit_and_field 12 20 ((0x220 + j) * 2 ^ 12 + 7),
      )
      (omega arith)

-- The table that entry `i` of a directory names.
abbrev pub source : ℕ → ℕ → Space → ℕ
source spde i s = table_of (s.frames.word (spde + 4 * i))

-- The new directory's entry with the frame in it, and the frame cleared.
abbrev linked : ℕ → ℕ → Space → Space
linked slot j s = record s {
  frames = set_word slot (bit_or (page_vir_to_phy (frame_addr j)) 0b111) (taken j s.frames);
}

store_self : (f : ℕ → ℕ) (a v : ℕ) → store f a v a ≡ v
store_self f a v = ground arith

linked-other :
    (slot j : ℕ) (s : Space) (a : ℕ)
    → Outside 1024 (frame_addr j) a
    → slot ≢ a
    → (linked slot j s).frames.word a ≡ s.frames.word a
linked-other slot j s a out ne = ground (arith, out, ne)

-- An entry of a table that lies apart from the new frame.
Apart-Outside :
    (j spte k : ℕ)
    → Apart 1024 (frame_addr j) spte
    → k < 1024
    → Outside 1024 (frame_addr j) (spte + 4 * k)
Apart-Outside j spte k (inl h) below = inr (omega arith)
Apart-Outside j spte k (inr h) below = inl (omega arith)

Outside-ne : (spte k a : ℕ) → Outside 1024 spte a → k < 1024 → a ≢ spte + 4 * k
Outside-ne spte k a (inl h) below = λ e. omega arith
Outside-ne spte k a (inr h) below = λ e. omega arith

from_zero :
    (n a b : ℕ) → Apart n a b → (a + 4 * (0 + n) ≤ b + 4 * 0) ⊎ (b + 4 * (0 + n) ≤ a + 4 * 0)
from_zero n a b (inl h) = inl (omega arith)
from_zero n a b (inr h) = inr (omega arith)

Outside-zero : (n a b : ℕ) → Outside n a b → (b < a + 4 * 0) ⊎ (a + 4 * (0 + n) ≤ b)
Outside-zero n a b (inl h) = inl (omega arith)
Outside-zero n a b (inr h) = inr (omega arith)

-- Where the words that are used lie: frame `j` is new, so nothing else is in it.
pub record Placed (spde dpde i j : ℕ) (s : Space) : Type 0 where
  pub directories : spde ≢ dpde
  pub old_entry : Outside 1024 (frame_addr j) (spde + 4 * i)
  pub new_entry : Outside 1024 (frame_addr j) (dpde + 4 * i)
  pub behind_source : Outside 1024 (source spde i s) (dpde + 4 * i)
  pub tables : Apart 1024 (frame_addr j) (source spde i s)

-- The state with the entries of `spte` copied to frame `j`.
abbrev copied_to : ℕ → ℕ → Space → Space
copied_to j spte s = record s {
  frames = record s.frames { word = copy_words 1024 0 (frame_addr j) spte s.frames.word };
}

abbrev filled : ℕ → ℕ → Space → Outcome Space
filled j spte s = share_entries 1024 spte 0 s >>= λ s'. ok (copied_to j spte s')

copy_table-run :
    (spde dpde i j : ℕ) (s s₂ : Space)
    → sys_alloc_page_frame s.frames ≡ ok (page_vir_to_phy (frame_addr j), taken j s.frames)
    → j < frame_count
    → (linked (dpde + 4 * i) j s).frames.word (spde + 4 * i) ≡ s.frames.word (spde + 4 * i)
    → share_entries 1024 (source spde i s) 0 (linked (dpde + 4 * i) j s) ≡ ok s₂
    → copy_table spde dpde i s ≡ ok (copied_to j (source spde i s) s₂)
unfolding copy_table
copy_table-run spde dpde i j s s₂ e h same e₂ =
    rw (e, table_of-frame j h)
      (ap (λ x. filled j (table_of x) (linked (dpde + 4 * i) j s)) same ∙ rw e₂ refl)

-- What one page table that is shared promises.
pub record IsCopied (spde dpde i j : ℕ) (s s' : Space) : Type 0 where
  pub entry : table_of (s'.frames.word (dpde + 4 * i)) ≡ frame_addr j
  pub child :
      entries 1024 (frame_addr j) 0 s'.frames.word
      ≡ shared_entries (entries 1024 (source spde i s) 0 s.frames.word)
  pub parent :
      entries 1024 (source spde i s) 0 s'.frames.word
      ≡ shared_entries (entries 1024 (source spde i s) 0 s.frames.word)
  pub counts :
      (page : ℕ)
      → page ≢ 0
      → shares page s'.copies
        ≡ shares page s.copies + uses page (entries 1024 (source spde i s) 0 s.frames.word)
  pub bits :
      (k : ℕ)
      → bit_at s'.frames.page_bitmap k ≡ (if j == k then 1 else bit_at s.frames.page_bitmap k)
  pub memory : s'.memory ≡ s.memory
  pub pages : s'.pages ≡ s.pages

-- The parts of `IsCopied` from those of its three steps.
copied_to-IsCopied :
    (spde dpde i j : ℕ) (s s₂ : Space)
    → IsValid s.frames
    → j < frame_count
    → Placed spde dpde i j s
    → IsShared 1024 (source spde i s) 0 s.frames.word (linked (dpde + 4 * i) j s) s₂
    → IsCopied spde dpde i j s (copied_to j (source spde i s) s₂)
copied_to-IsCopied spde dpde i j s s₂ v h p r =
    let spte = source spde i s in
    let (copied, kept) =
      copy_words_lem 1024 0 (frame_addr j) spte s₂.frames.word
        (from_zero 1024 (frame_addr j) spte p.tables) in
    record {
      entry =
          ap table_of (
            kept (dpde + 4 * i) (Outside-zero 1024 (frame_addr j) (dpde + 4 * i) p.new_entry)
            ∙ r.words (dpde + 4 * i) (Outside-zero 1024 spte (dpde + 4 * i) p.behind_source)
            ∙ store_self (taken j s.frames).word (dpde + 4 * i)
                (bit_or (page_vir_to_phy (frame_addr j)) 0b111))
          ∙ table_of-frame j h;
      child =
          entries-moved 1024 (frame_addr j) spte 0 s₂.frames.word
            (copy_words 1024 0 (frame_addr j) spte s₂.frames.word) copied
          ∙ r.table;
      parent =
          entries-moved 1024 spte spte 0 s₂.frames.word
            (copy_words 1024 0 (frame_addr j) spte s₂.frames.word)
            (λ k low high. kept (spte + 4 * k) (
              Outside-zero 1024 (frame_addr j) (spte + 4 * k)
                (Apart-Outside j spte k p.tables high)))
          ∙ r.table;
      counts = r.counts;
      bits = λ k.
          ap (λ b. bit_at b k) r.bitmap
          ∙ bit_at-with_bit s.frames.page_bitmap j 1 v.bytes (omega arith) k
              (omega (arith, v.storage));
      memory = r.memory;
      pages = r.pages;
    }

-- Process and new process share a page table: entry `i` of the directory names a table, frame `j` is
-- the lowest that is free, and neither the two entries nor the table lie in it; every page that is
-- present in the table has room to be counted. The call returns. The new directory's entry names
-- frame `j`, which is taken; both tables then hold the same entries, those that are present without
-- their write bit and otherwise as before; each page is counted once more for each entry that names
-- it; and no page changes its content.
pub copy_table-IsCopied :
    (spde dpde i j : ℕ) (s : Space)
    → IsValid s.frames
    → j < frame_count
    → IsFree s.frames j
    → ((k : ℕ) → k < j → ¬ IsFree s.frames k)
    → Placed spde dpde i j s
    → CanShare (entries 1024 (source spde i s) 0 s.frames.word) s.copies
    → (s' : Space) × (copy_table spde dpde i s ≡ ok s') × IsCopied spde dpde i j s s'
copy_table-IsCopied spde dpde i j s v h free least p can =
    let (s₂, e, r) =
      share_entries_lem 1024 (source spde i s) 0 s.frames.word (linked (dpde + 4 * i) j s)
        (λ k low high.
          linked-other (dpde + 4 * i) j s (source spde i s + 4 * k)
            (Apart-Outside j (source spde i s) k p.tables high)
            (Outside-ne (source spde i s) k (dpde + 4 * i) p.behind_source high))
        can in
    (
      copied_to j (source spde i s) s₂,
      copy_table-run spde dpde i j s s₂ (sys_alloc_page_frame_lem j s.frames v h free least) h
          (linked-other (dpde + 4 * i) j s (spde + 4 * i) p.old_entry
            (λ e. p.directories (omega arith)))
          e,
      copied_to-IsCopied spde dpde i j s s₂ v h p r,
    )
