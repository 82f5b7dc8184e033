-- ===== src/Mem/Alloc/Counter.antt =====
-- The page search as a counter: since `mp` only grows, the pages are handed out in order.
use native.Mathlib.Nat.{add-zero}
use native.Mathlib.Numerals.{add-one}
use create_an_os.Prelude.{
  ℕ, zero, suc, ◌+◌, ◌-◌, ◌*◌, ◌%◌, ◌^◌, ◌≤◌, ◌<◌, ◌≡◌, refl, ap, ◌⊎◌, ◌∙◌, inl, inr, List, [], ◌∷◌,
  arith, length, length-replicate, Outcome, ok, fault, ◌>>=◌,
}
use create_an_os.Common.Bitmap.Laws.{
  IsBytes, IsBytes-replicate, bit_at, with_bit, get_bit-ok, get_bit-fault, set_bit-ok,
  length-with_bit, with_bit-IsBytes, bit_at-with_bit, bit_at-replicate,
}
use create_an_os.Mem.Alloc.{
  Memory, map_bytes, user_space_start, init_memory, search_page, sys_alloc_phy_page,
}

-- The number of pages that the bitmap has a bit for.
abbrev pub page_count : ℕ
page_count = 0x1d00

-- The first `n` pages are handed out and no other is.
pub record HandedOut (n : ℕ) (m : Memory) : Type 0 where
  pub storage : length m.bitmap ≡ map_bytes
  pub bytes : IsBytes m.bitmap
  pub used : (j : ℕ) → j < n → bit_at m.bitmap j ≡ 1
  pub unused : (j : ℕ) → n ≤ j → bit_at m.bitmap j ≡ 0
  pub start : (m.mp ≡ n) ⊎ (m.mp + 1 ≡ n)
  pub bound : n ≤ page_count

pub init_memory-HandedOut : HandedOut 0 init_memory
unfolding init_memory
init_memory-HandedOut = record {
  storage = length-replicate {A = ℕ} map_bytes 0;
  bytes = IsBytes-replicate map_bytes;
  used = λ j h. absurd (omega arith);
  unused = λ j h. bit_at-replicate map_bytes j;
  start = inl refl;
  bound = omega arith;
}

-- One round at a page that is free, at one that is not, and past the bitmap.
module _ (rounds : ℕ) (m : Memory) where
  search_page-hit :
      m.mp < 8 * length m.bitmap
      → bit_at m.bitmap m.mp ≡ 0
      → search_page (suc rounds) m
        ≡ ok (
          (user_space_start + 0x1000 * m.mp) % 2 ^ 32,
          record m { bitmap = with_bit m.bitmap m.mp 1 },
        )
  unfolding search_page
  search_page-hit inside free =
      rw (get_bit-ok m.bitmap m.mp inside, free, set_bit-ok m.bitmap m.mp 1 inside)

  search_page-miss :
      m.mp < 8 * length m.bitmap
      → bit_at m.bitmap m.mp ≡ 1
      → search_page (suc rounds) m ≡ search_page rounds (record m { mp = m.mp + 1 })
  unfolding search_page
  search_page-miss inside taken = rw (get_bit-ok m.bitmap m.mp inside, taken)

  search_page-past : 8 * length m.bitmap ≤ m.mp → search_page (suc rounds) m ≡ fault
  unfolding search_page
  search_page-past past = rw (get_bit-fault m.bitmap m.mp past)

handed_out :
    (n : ℕ) (m : Memory)
    → HandedOut n m
    → n < page_count
    → HandedOut (suc n) (record m { bitmap = with_bit m.bitmap n 1; mp = n })
handed_out n m v h = record {
  storage = ground (arith, length-with_bit m.bitmap n 1, v.storage);
  bytes = with_bit-IsBytes m.bitmap n 1 v.bytes (omega arith);
  used = λ j below.
      ground (arith, bit_at-with_bit m.bitmap n 1 v.bytes (omega arith) j, v.used j, v.storage);
  unused = λ j above.
      ground (arith, bit_at-with_bit m.bitmap n 1 v.bytes (omega arith) j, v.unused j, v.storage);
  start = inr (omega arith);
  bound = h;
}

hit_at :
    (rounds n : ℕ) (m : Memory)
    → HandedOut n m
    → n < page_count
    → search_page (suc rounds) (record m { mp = n })
      ≡ ok (user_space_start + 0x1000 * n, record m { bitmap = with_bit m.bitmap n 1; mp = n })
hit_at rounds n m v h =
    let page : (user_space_start + 0x1000 * n) % 2 ^ 32 ≡ user_space_start + 0x1000 * n =
      omega arith in
    rw (
      search_page-hit rounds (record m { mp = n }) (omega (arith, v.storage))
          (v.unused n (omega arith)),
      page,
    )

at_mp : {n : ℕ} (m : Memory) → m.mp ≡ n → m ≡ record m { mp = n }
at_mp m e = λ i. record m { mp = e i }

regroup : (n k : ℕ) → n + suc k ≡ n + 1 + k
regroup n k = omega arith

-- While a page is left, the allocator returns the next one in order.
pub sys_alloc_phy_page-next :
    (n : ℕ) (m : Memory)
    → HandedOut n m
    → n < page_count
    → (m' : Memory) × (sys_alloc_phy_page m ≡ ok (user_space_start + 0x1000 * n, m'))
      × HandedOut (suc n) m'
unfolding sys_alloc_phy_page
sys_alloc_phy_page-next n m v h = elim v.start [
  | inl here ↦ (
    record m { bitmap = with_bit m.bitmap n 1; mp = n },
    ap (search_page map_bytes) (at_mp m here) ∙ hit_at (map_bytes - 1) n m v h,
    handed_out n m v h,
  )
  | inr behind ↦ (
    record m { bitmap = with_bit m.bitmap n 1; mp = n },
    search_page-miss (map_bytes - 1) m (omega (arith, v.storage)) (v.used m.mp (omega arith))
        ∙ ap (λ k. search_page (map_bytes - 1) (record m { mp = k })) behind
        ∙ hit_at (map_bytes - 2) n m v h,
    handed_out n m v h,
  )
]

-- Once every page is handed out, a further request reads past the bitmap; it does not come to the
-- `while(1);` that is meant for it.
pub sys_alloc_phy_page-exhausted :
    (m : Memory) → HandedOut page_count m → sys_alloc_phy_page m ≡ fault
unfolding sys_alloc_phy_page
sys_alloc_phy_page-exhausted m v = elim v.start [
  | inl here ↦ search_page-past (map_bytes - 1) m (omega (arith, v.storage))
  | inr behind ↦
      search_page-miss (map_bytes - 1) m (omega (arith, v.storage)) (v.used m.mp (omega arith))
      ∙ search_page-past (map_bytes - 2) (record m { mp = m.mp + 1 }) (omega (arith, v.storage))
]

-- `k` requests in a row.
unfoldable pub alloc_pages : ℕ → Memory → Outcome (List ℕ × Memory)
alloc_pages zero m = ok ([], m)
alloc_pages (suc k) m = do
  (page, m') ← sys_alloc_phy_page m
  (pages, m'') ← alloc_pages k m'
  ok (page ∷ pages, m'')

-- The `k` pages from number `n` on.
abbrev pub page_run : ℕ → ℕ → List ℕ
page_run n zero = []
page_run n (suc k) = (user_space_start + 0x1000 * n) ∷ page_run (n + 1) k

-- Any number of requests that the memory can serve are served, by pages that follow one another:
-- none is handed out twice and none lies outside of user space.
pub alloc_pages-run :
    (k n : ℕ) (m : Memory)
    → HandedOut n m
    → n + k ≤ page_count
    → (m' : Memory) × (alloc_pages k m ≡ ok (page_run n k, m')) × HandedOut (n + k) m'
unfolding alloc_pages
alloc_pages-run zero n m v h = (m, refl, rw add-zero v)
alloc_pages-run (suc k) n m v h =
    let (m', e, v') = sys_alloc_phy_page-next n m v (omega arith) in
    let (m'', e', v'') = alloc_pages-run k (n + 1) m' (rw add-one v') (omega arith) in
    (m'', rw (e, e'), rw (regroup n k) v'')
