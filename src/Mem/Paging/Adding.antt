-- ===== src/Mem/Paging/Adding.antt =====
-- `add`: one more process shares a page.
use create_an_os.Prelude.{
  ℕ, ◌+◌, ◌%◌, ◌^◌, ◌<◌, ◌≡◌, ◌≢◌, refl, ◌⊎◌, inl, inr, [], ◌∷◌, none, some, arith, ℕ_discrete, ok,
}
use create_an_os.Mem.Paging.{CopyMap, bump, claim, add}
use create_an_os.Mem.Paging.Shares.{
  shares, Absent, Present, IsCounted, HasRoom, Recounted, shares-Absent, keep-entry, shares-here,
  shares-there, alone, set_entry, later,
}

bump-Absent : (key : ℕ) (m : CopyMap) → Absent key m → bump key m ≡ none
unfolding bump
bump-Absent key [] a = refl
bump-Absent key ((k, n) ∷ m) a = ground (arith, bump-Absent key m a.1)

bump-here :
    (key k n : ℕ) (m : CopyMap)
    → k ≡ key
    → n + 1 < 2 ^ 32
    → bump key ((k, n) ∷ m) ≡ some ((key, n + 1) ∷ m)
unfolding bump
bump-here key k n m e h = let next : (n + 1) % 2 ^ 32 ≡ n + 1 = omega arith in ground (arith, next)

bump-there :
    (key k n : ℕ) (m m' : CopyMap)
    → k ≢ key
    → bump key m ≡ some m'
    → bump key ((k, n) ∷ m) ≡ some ((k, n) ∷ m')
unfolding bump
bump-there key k n m m' ne e = ground arith

bump_lem :
    (key : ℕ) (m : CopyMap)
    → key ≢ 0
    → IsCounted m
    → Present key m
    → shares key m + 1 < 2 ^ 32
    → (m' : CopyMap) × (bump key m ≡ some m') × Recounted key (shares key m + 1) m m'
bump_lem key [] nz c p h = absurd p
bump_lem key ((k, n) ∷ m) nz c p h = elim (ℕ_discrete k key) [
  | yes e ↦
      let (low, high, a) = alone key k n m nz e c in
      let same = shares-here key k n m e in
      let room : n + 1 < 2 ^ 32 = omega (arith, same) in
      (
        (key, n + 1) ∷ m,
        bump-here key k n m e room,
        rw same (set_entry key (n + 1) k n m (inl e) (omega arith) room a c.1),
      )
  | no ne ↦
      let same = shares-there key k n m ne in
      let (m', e, r) = bump_lem key m nz c.1 (later p ne) (omega (arith, same)) in
      (
        (k, n) ∷ m',
        bump-there key k n m m' ne e,
        rw same (keep-entry key (shares key m + 1) k n m m' ne c r),
      )
]

claim-there :
    (key k n : ℕ) (m m' : CopyMap)
    → k ≢ 0
    → claim key m ≡ some m'
    → claim key ((k, n) ∷ m) ≡ some ((k, n) ∷ m')
unfolding claim
claim-there key k n m m' ne e = ground arith

claim-here : (key k n : ℕ) (m : CopyMap) → k ≡ 0 → claim key ((k, n) ∷ m) ≡ some ((key, 2) ∷ m)
unfolding claim
claim-here key k n m e = ground arith

claim_lem :
    (key : ℕ) (m : CopyMap)
    → key ≢ 0
    → IsCounted m
    → Absent key m
    → HasRoom m
    → (m' : CopyMap) × (claim key m ≡ some m') × Recounted key 2 m m'
claim_lem key [] nz c a room = absurd room
claim_lem key ((k, n) ∷ m) nz c a room = elim (ℕ_discrete k 0) [
  | yes e ↦ (
    (key, 2) ∷ m,
    claim-here key k n m e,
    set_entry key 2 k n m (inr e) (omega arith) (omega arith) a.1 c.1,
  )
  | no ne ↦
      let (m', e, r) = claim_lem key m nz c.1 a.1 (later room ne) in
      ((k, n) ∷ m', claim-there key k n m m' ne e, keep-entry key 2 k n m m' a.0 c r)
]

-- One more process shares a page. If the page has an entry, or an entry is left for it, the call
-- returns, its number goes up by one and no other page's changes. The number must not wrap.
pub add-Recounted :
    (key : ℕ) (m : CopyMap)
    → key ≢ 0
    → IsCounted m
    → (Present key m × (shares key m + 1 < 2 ^ 32)) ⊎ (Absent key m × HasRoom m)
    → (m' : CopyMap) × (add key m ≡ ok m') × Recounted key (shares key m + 1) m m'
unfolding add
add-Recounted key m nz c (inl (p, h)) =
    let (m', e, r) = bump_lem key m nz c p h in (m', rw (e, add), r)
add-Recounted key m nz c (inr (a, room)) =
    let (m', e, r) = claim_lem key m nz c a room in
    (m', rw (bump-Absent key m a, add, e), rw (shares-Absent key m a) r)
