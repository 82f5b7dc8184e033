-- ===== src/Mem/Cleanup/Private.antt =====
-- Giving back a page that no other process shares: `sys_free_phy_page` cannot take it.
use create_an_os.Prelude.{
  ℕ, zero, suc, ◌+◌, ◌*◌, ◌≤◌, ◌<◌, ◌≡◌, refl, arith, bit_and, false, take, length, ◌==◌,
  ℕ_discrete, fault,
}
use create_an_os.Mem.Alloc.{map_bytes, user_space_start}
use create_an_os.Mem.Alloc.Counter.{page_count}
use create_an_os.Mem.Alloc.Free.{sys_free_phy_page-fault}
use create_an_os.Mem.Paging.Shares.{Absent}
use create_an_os.Mem.Paging.Dropping.{dec-Absent}
use create_an_os.Mem.Fault.{Space, table_of}
use create_an_os.Mem.Cleanup.{release_page, release_entries, release_tables, sys_cleanup_memory}

release_page-fault :
    (n page : ℕ) (s : Space)
    → page ≡ user_space_start + 0x1000 * n
    → n < page_count
    → length s.memory.bitmap ≡ map_bytes
    → Absent page (take 64 s.copies)
    → release_page page s ≡ fault
unfolding release_page
release_page-fault n page s e h size private =
    rw (dec-Absent page s.copies private, e, sys_free_phy_page-fault n s.memory h size) refl

-- An entry of a table or of a directory.
abbrev pub entry_of : ℕ → ℕ → Space → ℕ
entry_of table k s = s.frames.word (table + 4 * k)

-- The first entry of a table that is present is `k`.
pub record IsFirst (table k : ℕ) (s : Space) : Type 0 where
  pub here : (bit_and (entry_of table k s) 1 == 0) ≡ false
  pub before : (j : ℕ) → j < k → bit_and (entry_of table j s) 1 ≡ 0

-- A page of user space that no entry of the map counts.
pub record IsPrivate (n page : ℕ) (s : Space) : Type 0 where
  pub address : page ≡ user_space_start + 0x1000 * n
  pub in_range : n < page_count
  pub bitmap : length s.memory.bitmap ≡ map_bytes
  pub uncounted : Absent page (take 64 s.copies)

release_entries-fault :
    (left pte j k n : ℕ) (s : Space)
    → j ≤ k
    → k < j + left
    → IsFirst pte k s
    → IsPrivate n (bit_and (entry_of pte k s) 0xfffff000) s
    → release_entries left pte j s ≡ fault
unfolding release_entries
release_entries-fault zero pte j k n s low high f p = absurd (omega arith)
release_entries-fault (suc left) pte j k n s low high f p = elim (ℕ_discrete j k) [
  | yes e ↦
      rw
        (
          e,
          f.here,
          release_page-fault n (bit_and (entry_of pte k s) 0xfffff000) s p.address p.in_range
              p.bitmap p.uncounted,
        )
        refl
  | no ne ↦
      rw (f.before j (omega arith))
        (release_entries-fault left pte (j + 1) k n s (omega arith) (omega arith) f p)
]

release_tables-fault :
    (left pde i d k n : ℕ) (s : Space)
    → i ≤ d
    → d < i + left
    → IsFirst pde d s
    → k < 1024
    → IsFirst (table_of (entry_of pde d s)) k s
    → IsPrivate n (bit_and (entry_of (table_of (entry_of pde d s)) k s) 0xfffff000) s
    → release_tables left pde i s ≡ fault
unfolding release_tables
release_tables-fault zero pde i d k n s low high f below f' p = absurd (omega arith)
release_tables-fault (suc left) pde i d k n s low high f below f' p = elim (ℕ_discrete i d) [
  | yes e ↦
      rw
        (
          e,
          f.here,
          release_entries-fault 1024 (table_of (entry_of pde d s)) 0 k n s (omega arith) below f' p,
        )
        refl
  | no ne ↦
      rw (f.before i (omega arith))
        (release_tables-fault left pde (i + 1) d k n s (omega arith) (omega arith) f below f' p)
]

-- A process whose first page of user space is its own, that is, not counted as shared, cannot give
-- its memory back: the call writes outside of the bitmap of pages. Both ends of a process, its exit
-- and the start of another program in it, run into this.
pub sys_cleanup_memory-fault :
    (pde d k n : ℕ) (s : Space)
    → d < 768
    → IsFirst pde d s
    → k < 1024
    → IsFirst (table_of (entry_of pde d s)) k s
    → IsPrivate n (bit_and (entry_of (table_of (entry_of pde d s)) k s) 0xfffff000) s
    → sys_cleanup_memory pde s ≡ fault
unfolding sys_cleanup_memory
sys_cleanup_memory-fault pde d k n s h f below f' p =
    release_tables-fault 768 pde 0 d k n s (omega arith) h f below f' p
