-- ===== src/Mem/Paging/Dropping.antt =====
-- `dec`: one process fewer shares a page, and what its bound of 64 misses.
use create_an_os.Prelude.{
  ℕ, zero, suc, ◌+◌, ◌-◌, ◌%◌, ◌^◌, ◌<◌, ◌≡◌, ◌≢◌, refl, sym, ap, ◌∙◌, inl, [], ◌∷◌, arith, ◌==◌,
  if◌then◌else◌, ℕ_discrete, false, take,
}
use create_an_os.Mem.Paging.{CopyMap, dec_entries, dec}
use create_an_os.Mem.Paging.Shares.{
  shares, Absent, Present, IsCounted, Recounted, keep-entry, shares-here, shares-there, alone,
  set_entry, drop_entry, later,
}

-- What a page counts after one of `n` sharers is gone: an entry at 0 is given up.
abbrev pub left_of : ℕ → ℕ
left_of n = if n == 1 then 1 else n - 1

dec-there :
    (rounds key k n : ℕ) (m : CopyMap)
    → k ≢ key
    → dec_entries (suc rounds) key ((k, n) ∷ m)
      ≡ ((dec_entries rounds key m).0, (k, n) ∷ (dec_entries rounds key m).1)
unfolding dec_entries
dec-there rounds key k n m ne = ground arith

dec-here :
    (rounds key k n : ℕ) (m : CopyMap)
    → k ≡ key
    → 0 < n
    → n < 2 ^ 32
    → dec_entries (suc rounds) key ((k, n) ∷ m) ≡ (n - 1, (if n == 1 then 0 else k, n - 1) ∷ m)
unfolding dec_entries
dec-here rounds key k n m e low high =
    let left : (n + 2 ^ 32 - 1) % 2 ^ 32 ≡ n - 1 = omega arith in rw left (ground arith)

dec_first :
    (key k n : ℕ) (m : CopyMap)
    → key ≢ 0
    → k ≡ key
    → IsCounted ((k, n) ∷ m)
    → Recounted key (left_of n) ((k, n) ∷ m) ((if n == 1 then 0 else k, n - 1) ∷ m)
dec_first key k n m nz e c = elim (ℕ_discrete n 1) [
  | yes last ↦ rw last (drop_entry key k 1 m nz e (alone key k n m nz e c).2 c.1)
  | no more ↦
      let several : (n == 1) ≡ false = ground (arith, more) in
      let (low, high, a) = alone key k n m nz e c in
      rw (several, e) (set_entry key (n - 1) key n m (inl refl) (omega arith) (omega arith) a c.1)
]

dec_entries_lem :
    (rounds key : ℕ) (m : CopyMap)
    → key ≢ 0
    → IsCounted m
    → Present key (take rounds m)
    → (m' : CopyMap) × (dec_entries rounds key m ≡ (shares key m - 1, m'))
      × Recounted key (left_of (shares key m)) m m'
dec_entries_lem zero key m nz c p = absurd p
dec_entries_lem (suc rounds) key [] nz c p = absurd p
dec_entries_lem (suc rounds) key ((k, n) ∷ m) nz c p = elim (ℕ_discrete k key) [
  | yes e ↦
      let (low, high, a) = alone key k n m nz e c in
      (
        (if n == 1 then 0 else k, n - 1) ∷ m,
        dec-here rounds key k n m e low high
            ∙ ap (λ v. (v - 1, (if n == 1 then 0 else k, n - 1) ∷ m))
                (sym (shares-here key k n m e)),
        rw (shares-here key k n m e) (dec_first key k n m nz e c),
      )
  | no ne ↦
      let (m', e, r) = dec_entries_lem rounds key m nz c.1 (later p ne) in
      (
        (k, n) ∷ m',
        dec-there rounds key k n m ne
            ∙ ap (λ r. (r.0, (k, n) ∷ r.1)) e
            ∙ ap (λ v. (v - 1, (k, n) ∷ m')) (sym (shares-there key k n m ne)),
        rw (shares-there key k n m ne) (keep-entry key (left_of (shares key m)) k n m m' ne c r),
      )
]

-- One process fewer shares a page whose entry is among the first 64: the call returns how many are
-- left besides, takes the page's number down by one, to no entry from 1, and changes no other.
pub dec-Recounted :
    (key : ℕ) (m : CopyMap)
    → key ≢ 0
    → IsCounted m
    → Present key (take 64 m)
    → (m' : CopyMap) × (dec key m ≡ (shares key m - 1, m'))
      × Recounted key (left_of (shares key m)) m m'
unfolding dec
dec-Recounted key m nz c p = dec_entries_lem 64 key m nz c p

dec_entries-Absent :
    (rounds key : ℕ) (m : CopyMap) → Absent key (take rounds m) → dec_entries rounds key m ≡ (0, m)
unfolding dec_entries
dec_entries-Absent zero key m a = refl
dec_entries-Absent (suc rounds) key [] a = refl
dec_entries-Absent (suc rounds) key ((k, n) ∷ m) a =
    ground (arith, dec_entries-Absent rounds key m a.1)

-- A page that has no entry there is shared by nobody.
pub dec-Absent : (key : ℕ) (m : CopyMap) → Absent key (take 64 m) → dec key m ≡ (0, m)
unfolding dec
dec-Absent key m a = dec_entries-Absent 64 key m a
