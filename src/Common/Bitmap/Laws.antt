-- ===== src/Common/Bitmap/Laws.antt =====
-- A bitmap is a finite set of indices: what `set_bit` writes is what `get_bit` reads, and no
-- other bit changes.
use create_an_os.Prelude.{
  ℕ, zero, suc, ◌*◌, ◌/◌, ◌%◌, ◌^◌, ◌≤◌, ◌<◌, ◌≡◌, refl, ap, ◌∙◌, bit_and, Bool, true, ◌&&◌, List,
  [], ◌∷◌, arith, ◌==◌, if◌then◌else◌, length, get_or, set, length-set, get_or-set_self,
  get_or-set_ne, ok, read-ok, write-ok, holds_below, at-holds_below, ltb, fault, read-fault,
  replicate, ℕ_discrete, get_or-replicate,
}
use native.Mathlib.Nat.{mod-mod, zero-div}
use create_an_os.Prelude.Bits.{bit_and_mask}
use create_an_os.Common.Bitmap.{byte_bit, byte_with_bit, get_bit, set_bit}

-- Every element is a byte.
abbrev pub IsBytes : List ℕ → Type 0
IsBytes [] = Unit {0}
IsBytes (x ∷ xs) = (x < 256) × IsBytes xs

-- The bit that stands at an index, 0 outside.
unfoldable pub bit_at : List ℕ → ℕ → ℕ
bit_at bitmap idx = byte_bit (get_or bitmap (idx / 8) 0) idx

byte_law : ℕ → ℕ → ℕ → ℕ → Bool
byte_law v k j b =
    ltb (byte_with_bit b k v) 256
    && (byte_bit (byte_with_bit b k v) j == (if k == j then v else byte_bit b j))

byte_table :
    holds_below 2 (λ v. holds_below 8 λ k. holds_below 8 λ j. holds_below 256 (byte_law v k j))
    ≡ true
unfolding holds_below byte_law byte_bit byte_with_bit
byte_table = refl

module _ (v k j b : ℕ) (hv : v < 2) (hk : k < 8) (hj : j < 8) (hb : b < 256) where
  byte_law_holds : byte_law v k j b ≡ true
  byte_law_holds =
      at-holds_below 256 (byte_law v k j) b
        (at-holds_below 8 (λ j. holds_below 256 (byte_law v k j)) j
          (at-holds_below 8 (λ k. holds_below 8 λ j. holds_below 256 (byte_law v k j)) k
            (at-holds_below 2
              (λ v. holds_below 8 λ k. holds_below 8 λ j. holds_below 256 (byte_law v k j)) v
              byte_table hv)
            hk)
          hj)
        hb

  byte_with_bit-lt : byte_with_bit b k v < 256
  unfolding byte_law
  byte_with_bit-lt = ground (arith, byte_law_holds)

  byte_bit-byte_with_bit : byte_bit (byte_with_bit b k v) j ≡ (if k == j then v else byte_bit b j)
  unfolding byte_law
  byte_bit-byte_with_bit = ground (arith, byte_law_holds)

-- Only the lowest three bits of the index matter within a byte.
byte_bit-mod : (b j : ℕ) → byte_bit b j ≡ byte_bit b (j % 8)
unfolding byte_bit
byte_bit-mod b j = rw (bit_and_mask 3 j, bit_and_mask 3 (j % 8), mod-mod)

byte_with_bit-mod : (b j v : ℕ) → byte_with_bit b j v ≡ byte_with_bit b (j % 8) v
unfolding byte_with_bit
byte_with_bit-mod b j v = rw (bit_and_mask 3 j, bit_and_mask 3 (j % 8), mod-mod)

IsBytes-get_or : (xs : List ℕ) (i : ℕ) → IsBytes xs → get_or xs i 0 < 256
IsBytes-get_or [] i h = omega arith
IsBytes-get_or (x ∷ xs) zero h = h.0
IsBytes-get_or (x ∷ xs) (suc i) h = IsBytes-get_or xs i h.1

pub IsBytes-set : (xs : List ℕ) (i v : ℕ) → v < 256 → IsBytes xs → IsBytes (set xs i v)
IsBytes-set [] i v hv h = tt
IsBytes-set (x ∷ xs) zero v hv h = (hv, h.1)
IsBytes-set (x ∷ xs) (suc i) v hv h = (h.0, IsBytes-set xs i v hv h.1)

pub IsBytes-replicate : (n : ℕ) → IsBytes (replicate n 0)
IsBytes-replicate zero = tt
IsBytes-replicate (suc n) = (omega arith, IsBytes-replicate n)

pub get_bit-ok : (bm : List ℕ) (i : ℕ) → i < 8 * length bm → get_bit bm i ≡ ok (bit_at bm i)
unfolding get_bit bit_at
get_bit-ok bm i h = rw (read-ok bm (i / 8) 0 (omega arith))

pub get_bit-fault : (bm : List ℕ) (i : ℕ) → 8 * length bm ≤ i → get_bit bm i ≡ fault
unfolding get_bit
get_bit-fault bm i h = rw (read-fault bm (i / 8) (omega arith))

pub set_bit-fault : (bm : List ℕ) (i v : ℕ) → 8 * length bm ≤ i → set_bit bm i v ≡ fault
unfolding set_bit
set_bit-fault bm i v h = rw (read-fault bm (i / 8) (omega arith))

-- What `set_bit` leaves behind, inside the array.
unfoldable pub with_bit : List ℕ → ℕ → ℕ → List ℕ
with_bit bm i v = set bm (i / 8) (byte_with_bit (get_or bm (i / 8) 0) i v)

pub set_bit-ok : (bm : List ℕ) (i v : ℕ) → i < 8 * length bm → set_bit bm i v ≡ ok (with_bit bm i v)
unfolding set_bit with_bit
set_bit-ok bm i v h = rw (read-ok bm (i / 8) 0 (omega arith)) (write-ok bm (i / 8) _ (omega arith))

pub length-with_bit : (bm : List ℕ) (i v : ℕ) → length (with_bit bm i v) ≡ length bm
unfolding with_bit
length-with_bit bm i v = length-set bm (i / 8) _

module _ (bm : List ℕ) (i v : ℕ) (bytes : IsBytes bm) (bit : v < 2) where
  pub with_bit-IsBytes : IsBytes (with_bit bm i v)
  unfolding with_bit
  with_bit-IsBytes =
      IsBytes-set bm (i / 8) _
        (rw byte_with_bit-mod (
          byte_with_bit-lt v (i % 8) 0 _ bit (omega arith) (omega arith)
            (IsBytes-get_or bm (i / 8) bytes)))
        bytes

  -- `set_bit` writes the bit it is given and no other.
  pub bit_at-with_bit :
      (j : ℕ) → i < 8 * length bm → bit_at (with_bit bm i v) j ≡ (if i == j then v else bit_at bm j)
  unfolding with_bit bit_at
  bit_at-with_bit j inside = elim (ℕ_discrete (i / 8) (j / 8)) [
    | yes e ↦
        rw (← e, get_or-set_self bm (i / 8) _ 0 (omega arith), byte_bit-mod, byte_with_bit-mod)
          (ground (
            arith,
            byte_bit-mod (get_or bm (i / 8) 0) j,
            byte_bit-byte_with_bit v (i % 8) (j % 8) (get_or bm (i / 8) 0) bit (omega arith)
                (omega arith) (IsBytes-get_or bm (i / 8) bytes),
          ))
    | no ne ↦ rw (get_or-set_ne bm (i / 8) (j / 8) _ 0 ne) (ground arith)
  ]

pub bit_at-replicate : (n j : ℕ) → bit_at (replicate n 0) j ≡ 0
unfolding bit_at byte_bit
bit_at-replicate n j = rw (get_or-replicate, zero-div)

pub bit_at-lt : (bm : List ℕ) (j : ℕ) → bit_at bm j < 2
unfolding bit_at byte_bit
bit_at-lt bm j = rw (bit_and_mask 1 (get_or bm (j / 8) 0 / 2 ^ bit_and j 7)) (omega arith)

-- Setting one bit of a bitmap of bytes returns a bitmap of the same length in which that bit reads
-- as the value given and every other bit reads as before.
pub get_bit-set_bit :
    (bm : List ℕ) (i v : ℕ)
    → IsBytes bm
    → v < 2
    → i < 8 * length bm
    → (bm' : List ℕ) × (set_bit bm i v ≡ ok bm')
      × (length bm' ≡ length bm)
      × ((j : ℕ) → j < 8 * length bm → get_bit bm' j ≡ (if i == j then ok v else get_bit bm j))
get_bit-set_bit bm i v bytes bit inside = (
  with_bit bm i v,
  set_bit-ok bm i v inside,
  length-with_bit bm i v,
  λ j hj.
      get_bit-ok (with_bit bm i v) j (omega (arith, length-with_bit bm i v))
      ∙ ap ok (bit_at-with_bit bm i v bytes bit j inside)
      ∙ ground (arith, get_bit-ok bm j hj),
)
