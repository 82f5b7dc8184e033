-- ===== src/Mem/Paging/Room.antt =====
-- How many entries of `frame_copy_map` are left: `add` takes one of them at most.
use create_an_os.Prelude.{
  ℕ, ◌+◌, ◌≤◌, ◌<◌, ◌≡◌, ◌⊎◌, inl, inr, [], ◌∷◌, Option, none, some, Outcome, ok, hang, fault, true,
  false, arith, ◌==◌, if◌then◌else◌, ℕ_discrete,
}
use create_an_os.Mem.Paging.{CopyMap, bump, claim, add}
use create_an_os.Mem.Paging.Shares.{Absent, Present, HasRoom}

abbrev pub room : CopyMap → ℕ
room [] = 0
room ((k, n) ∷ m) = (if k == 0 then 1 else 0) + room m

pub HasRoom-room : (m : CopyMap) → 0 < room m → HasRoom m
HasRoom-room [] h = absurd (omega arith)
HasRoom-room ((k, n) ∷ m) h = elim (ℕ_discrete k 0) [
  | yes z ↦ inl z
  | no nz ↦ inr (HasRoom-room m (ground (arith, nz)))
]

pub Present-or : (key : ℕ) (m : CopyMap) → Present key m ⊎ Absent key m
Present-or key [] = inr tt
Present-or key ((k, n) ∷ m) = elim (ℕ_discrete k key) [
  | yes e ↦ inl (inl e)
  | no ne ↦ elim (Present-or key m) [ inl p ↦ inl (inr p) | inr a ↦ inr (ne, a) ]
]

-- A step that takes one entry at most, if it gets through.
abbrev Takes : CopyMap → Option CopyMap → Type 0
Takes m none = Unit {0}
Takes m (some m') = room m ≤ room m' + 1

abbrev TakesOut : CopyMap → Outcome CopyMap → Type 0
TakesOut m (ok m') = room m ≤ room m' + 1
TakesOut m hang = Unit {0}
TakesOut m fault = Unit {0}

Takes-cons :
    (k n : ℕ) (m : CopyMap) (o : Option CopyMap)
    → Takes m o
    → Takes ((k, n) ∷ m) (elim o [ none ↦ none | some m' ↦ some ((k, n) ∷ m') ])
Takes-cons k n m none t = tt
Takes-cons k n m (some m') t = omega arith

bump-Takes : (key : ℕ) (m : CopyMap) → Takes m (bump key m)
unfolding bump
bump-Takes key [] = tt
bump-Takes key ((k, n) ∷ m) = elim (ℕ_discrete k key) [
  | yes e ↦ let hit : (k == key) ≡ true = ground (arith, e) in rw hit (omega arith)
  | no ne ↦
      let miss : (k == key) ≡ false = ground (arith, ne) in
      rw miss (Takes-cons k n m (bump key m) (bump-Takes key m))
]

claim-Takes : (key : ℕ) (m : CopyMap) → Takes m (claim key m)
unfolding claim
claim-Takes key [] = tt
claim-Takes key ((k, n) ∷ m) = elim (ℕ_discrete k 0) [
  | yes e ↦ let hit : (k == 0) ≡ true = ground (arith, e) in rw hit (ground arith)
  | no ne ↦
      let miss : (k == 0) ≡ false = ground (arith, ne) in
      rw miss (Takes-cons k n m (claim key m) (claim-Takes key m))
]

either :
    (m : CopyMap) (first second : Option CopyMap)
    → Takes m first
    → Takes m second
    → TakesOut m
        (elim first [ some m' ↦ ok m' | none ↦ elim second [ some m' ↦ ok m' | none ↦ hang ] ])
either m (some m') second t u = t
either m none (some m') t u = u
either m none none t u = tt

add-Takes : (key : ℕ) (m : CopyMap) → TakesOut m (add key m)
unfolding add
add-Takes key m = either m (bump key m) (claim key m) (bump-Takes key m) (claim-Takes key m)

pub room-add : (key : ℕ) (m m' : CopyMap) → add key m ≡ ok m' → room m ≤ room m' + 1
room-add key m m' e = rw (e) at (add-Takes key m)
