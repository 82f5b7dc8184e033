-- ===== src/Mem/Cleanup/Bare.antt =====
-- A process that has no page tables of its own gives nothing back.
use create_an_os.Prelude.{ℕ, zero, suc, ◌+◌, ◌≡◌, refl, arith, ok}
use create_an_os.Mem.Fault.{Space}
use create_an_os.Mem.Copy.Bare.{IsBare}
use create_an_os.Mem.Cleanup.{release_tables, sys_cleanup_memory}

release_tables-IsBare :
    (n pde i : ℕ) (s : Space) → IsBare n pde i s.frames.word → release_tables n pde i s ≡ ok s
unfolding release_tables
release_tables-IsBare zero pde i s bare = refl
release_tables-IsBare (suc n) pde i s bare =
    rw (bare i (omega arith) (omega arith))
      (release_tables-IsBare n pde (i + 1) s (λ k low high. bare k (omega arith) (omega arith)))

pub sys_cleanup_memory-IsBare :
    (pde : ℕ) (s : Space) → IsBare 768 pde 0 s.frames.word → sys_cleanup_memory pde s ≡ ok s
unfolding sys_cleanup_memory
sys_cleanup_memory-IsBare pde s bare = release_tables-IsBare 768 pde 0 s bare
