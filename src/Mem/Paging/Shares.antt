-- ===== src/Mem/Paging/Shares.antt =====
-- `frame_copy_map` as a count of the processes that share a page: a page with no entry has one.
use create_an_os.Prelude.{
  ℕ, ◌^◌, ◌<◌, ◌≡◌, ◌≢◌, refl, sym, ◌∙◌, ◌⊎◌, inl, inr, [], ◌∷◌, arith, ◌==◌, if◌then◌else◌,
  ℕ_discrete,
}
use create_an_os.Mem.Paging.{CopyMap}

unfoldable pub shares : ℕ → CopyMap → ℕ
shares key [] = 1
shares key ((k, n) ∷ m) = if k == key then n else shares key m

-- `key` has no entry, and it has one.
abbrev pub Absent : ℕ → CopyMap → Type 0
Absent key [] = Unit {0}
Absent key ((k, n) ∷ m) = (k ≢ key) × Absent key m

abbrev pub Present : ℕ → CopyMap → Type 0
Present key [] = ⊥
Present key ((k, n) ∷ m) = (k ≡ key) ⊎ Present key m

-- A page has one entry at most, with a count that is not 0.
abbrev pub IsCounted : CopyMap → Type 0
IsCounted [] = Unit {0}
IsCounted ((k, n) ∷ m) = ((k ≡ 0) ⊎ ((0 < n) × (n < 2 ^ 32) × Absent k m)) × IsCounted m

-- An entry is not in use.
abbrev pub HasRoom : CopyMap → Type 0
HasRoom [] = ⊥
HasRoom ((k, n) ∷ m) = (k ≡ 0) ⊎ HasRoom m

-- How a step at `key` changes a map: `count` is the new number, and no other page's changes.
pub record Recounted (key count : ℕ) (m m' : CopyMap) : Type 0 where
  pub counted : IsCounted m'
  pub own : shares key m' ≡ count
  pub others : (j : ℕ) → j ≢ 0 → j ≢ key → shares j m' ≡ shares j m
  pub absent : (j : ℕ) → j ≢ 0 → j ≢ key → Absent j m → Absent j m'

pub shares-Absent : (key : ℕ) (m : CopyMap) → Absent key m → shares key m ≡ 1
unfolding shares
shares-Absent key [] a = refl
shares-Absent key ((k, n) ∷ m) a = ground (arith, shares-Absent key m a.1)

-- An entry that is kept in front of a step further on.
pub keep-entry :
    (key count k n : ℕ) (m m' : CopyMap)
    → k ≢ key
    → IsCounted ((k, n) ∷ m)
    → Recounted key count m m'
    → Recounted key count ((k, n) ∷ m) ((k, n) ∷ m')
unfolding shares
keep-entry key count k n m m' ne c r = record {
  counted = (keeps c.0, r.counted);
  own = ground (arith, r.own);
  others = λ j nz nk. ground (arith, r.others j nz nk);
  absent = λ j nz nk a. (a.0, r.absent j nz nk a.1);
}
  where
    keeps :
        (k ≡ 0) ⊎ ((0 < n) × (n < 2 ^ 32) × Absent k m)
        → (k ≡ 0) ⊎ ((0 < n) × (n < 2 ^ 32) × Absent k m')
    keeps (inl z) = inl z
    keeps (inr (p, q, a)) = elim (ℕ_discrete k 0) [
      | yes z ↦ inl z
      | no nz ↦ inr (p, q, r.absent k nz ne a)
    ]

pub shares-here : (key k n : ℕ) (m : CopyMap) → k ≡ key → shares key ((k, n) ∷ m) ≡ n
unfolding shares
shares-here key k n m e = ground arith

pub shares-there : (key k n : ℕ) (m : CopyMap) → k ≢ key → shares key ((k, n) ∷ m) ≡ shares key m
unfolding shares
shares-there key k n m ne = ground arith

-- Behind an entry of a page stands no other of it.
pub alone :
    (key k n : ℕ) (m : CopyMap)
    → key ≢ 0
    → k ≡ key
    → IsCounted ((k, n) ∷ m)
    → (0 < n) × (n < 2 ^ 32) × Absent key m
alone key k n m nz e (inl z, c) = absurd (nz (sym e ∙ z))
alone key k n m nz e (inr (p, q, a), c) = (p, q, rw (← e) a)

-- The first entry becomes that of `key`.
pub set_entry :
    (key count k n : ℕ) (m : CopyMap)
    → (k ≡ key) ⊎ (k ≡ 0)
    → 0 < count
    → count < 2 ^ 32
    → Absent key m
    → IsCounted m
    → Recounted key count ((k, n) ∷ m) ((key, count) ∷ m)
set_entry key count k n m which low high a c = record {
  counted = (inr (low, high, a), c);
  own = shares-here key key count m refl;
  others = λ j nz nk. unfold shares in ground (arith, which);
  absent = λ j nz nk b. ((λ e. nk (sym e)), b.1);
}

-- The first entry is `key`'s, and is given up.
pub drop_entry :
    (key k n : ℕ) (m : CopyMap)
    → key ≢ 0
    → k ≡ key
    → Absent key m
    → IsCounted m
    → Recounted key 1 ((k, n) ∷ m) ((0, 0) ∷ m)
drop_entry key k n m nz e a c = record {
  counted = (inl refl, c);
  own = shares-there key 0 0 m (λ z. nz (sym z)) ∙ shares-Absent key m a;
  others = λ j nj nk. unfold shares in ground arith;
  absent = λ j nj nk b. ((λ z. nj (sym z)), b.1);
}

pub later : {P Q : Type 0} → P ⊎ Q → ¬ P → Q
later (inl p) not_p = absurd (not_p p)
later (inr q) not_p = q
