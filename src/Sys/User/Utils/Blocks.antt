-- ===== src/Sys/User/Utils/Blocks.antt =====
-- Blocks of memory that are filled and copied.
use create_an_os.Prelude.{
  ℕ, zero, suc, ◌+◌, ◌%◌, ◌^◌, ◌<◌, ◌≤◌, ◌≡◌, ◌≢◌, ◌⊎◌, inl, inr, refl, sym, ◌∙◌, arith,
}
use mathlib.Core.Path.{subst}
use create_an_os.Sys.User.Utils.{put_byte, memset, memcpy_from, memcpy}

pub put_byte_self : (p value : ℕ) (memory : ℕ → ℕ) → put_byte p value memory p ≡ value
put_byte_self p value memory = ground arith

pub put_byte_ne : (p q value : ℕ) (memory : ℕ → ℕ) → p ≢ q → put_byte p value memory q ≡ memory q
put_byte_ne p q value memory h = ground arith

memcpy_from-outside :
    (left i dest src q : ℕ) (memory : ℕ → ℕ)
    → (q < dest + i) ⊎ (dest + i + left ≤ q)
    → memcpy_from left i dest src memory q ≡ memory q
unfolding memcpy_from
memcpy_from-outside zero i dest src q memory h = refl
memcpy_from-outside (suc left) i dest src q memory (inl h) =
    memcpy_from-outside left (i + 1) dest src q _ (inl (omega arith))
    ∙ put_byte_ne (dest + i) q _ memory (λ e. omega arith)
memcpy_from-outside (suc left) i dest src q memory (inr h) =
    memcpy_from-outside left (i + 1) dest src q _ (inr (omega arith))
    ∙ put_byte_ne (dest + i) q _ memory (λ e. omega arith)

-- Below the source or behind its end.
abbrev pub Forward : ℕ → ℕ → ℕ → Type 0
Forward dest src n = (dest ≤ src) ⊎ (src + n ≤ dest)

-- The byte that goes to `dest + i` is not where later ones come from.
later_ne :
    (dest src i k left : ℕ)
    → Forward dest src (i + suc left)
    → k < left
    → dest + i ≢ src + (i + 1 + k)
later_ne dest src i k left (inl h) low e = omega (arith, e)
later_ne dest src i k left (inr h) low e = omega (arith, e)

memcpy_from-inside :
    (left i dest src k : ℕ) (memory : ℕ → ℕ)
    → Forward dest src (i + left)
    → k < left
    → memcpy_from left i dest src memory (dest + (i + k)) ≡ memory (src + (i + k))
unfolding memcpy_from
memcpy_from-inside zero i dest src k memory f h = absurd (omega arith)
memcpy_from-inside (suc left) i dest src zero memory f h =
    let here : dest + (i + 0) ≡ dest + i = omega arith in
    let there : src + (i + 0) ≡ src + i = omega arith in
    rw (here, there)
      (memcpy_from-outside left (i + 1) dest src (dest + i) _ (inl (omega arith))
        ∙ put_byte_self (dest + i) (memory (src + i)) memory)
memcpy_from-inside (suc left) i dest src (suc k) memory f h =
    let here : dest + (i + suc k) ≡ dest + (i + 1 + k) = omega arith in
    let there : src + (i + suc k) ≡ src + (i + 1 + k) = omega arith in
    let shorter : i + suc left ≡ i + 1 + left = omega arith in
    let forward : Forward dest src (i + 1 + left) = rw (sym shorter) f in
    rw (here, there)
      (memcpy_from-inside left (i + 1) dest src k _ forward (omega arith)
        ∙ put_byte_ne (dest + i) (src + (i + 1 + k)) _ memory
            (later_ne dest src i k left f (omega arith)))

from_start : (dest n q : ℕ) → (q < dest) ⊎ (dest + n ≤ q) → (q < dest + 0) ⊎ (dest + 0 + n ≤ q)
from_start dest n q (inl h) = inl (omega arith)
from_start dest n q (inr h) = inr (omega arith)

-- `memcpy` copies a block to a place in front of it, or behind its end: each byte of the destination
-- is the source's byte as it was before, and every other byte of memory stays.
pub memcpy-copies :
    (dest src n : ℕ) (memory : ℕ → ℕ)
    → Forward dest src n
    → ((k : ℕ) → k < n → memcpy dest src n memory (dest + k) ≡ memory (src + k))
      × ((q : ℕ) → (q < dest) ⊎ (dest + n ≤ q) → memcpy dest src n memory q ≡ memory q)
unfolding memcpy
memcpy-copies dest src n memory f = (
  λ k h.
      let plain : 0 + k ≡ k = omega arith in
      let whole : 0 + n ≡ n = omega arith in
      subst (λ j. memcpy_from n 0 dest src memory (dest + j) ≡ memory (src + j)) plain
        (memcpy_from-inside n 0 dest src k memory (rw whole f) h),
  λ q h. memcpy_from-outside n 0 dest src q memory (from_start dest n q h),
)

memset-outside :
    (num ptr value q : ℕ) (memory : ℕ → ℕ)
    → (q < ptr) ⊎ (ptr + num ≤ q)
    → memset ptr value num memory q ≡ memory q
unfolding memset
memset-outside zero ptr value q memory h = refl
memset-outside (suc num) ptr value q memory (inl h) =
    memset-outside num (ptr + 1) value q _ (inl (omega arith))
    ∙ put_byte_ne ptr q _ memory (λ e. omega arith)
memset-outside (suc num) ptr value q memory (inr h) =
    memset-outside num (ptr + 1) value q _ (inr (omega arith))
    ∙ put_byte_ne ptr q _ memory (λ e. omega arith)

memset-inside :
    (num ptr value k : ℕ) (memory : ℕ → ℕ)
    → k < num
    → memset ptr value num memory (ptr + k) ≡ value % 2 ^ 8
unfolding memset
memset-inside zero ptr value k memory h = absurd (omega arith)
memset-inside (suc num) ptr value zero memory h =
    let here : ptr + 0 ≡ ptr = omega arith in
    rw here (
      memset-outside num (ptr + 1) value ptr _ (inl (omega arith))
      ∙ put_byte_self ptr (value % 2 ^ 8) memory)
memset-inside (suc num) ptr value (suc k) memory h =
    let here : ptr + suc k ≡ ptr + 1 + k = omega arith in
    rw here (memset-inside num (ptr + 1) value k _ (omega arith))

-- `memset` sets the bytes of its block to the value's lowest eight bits, and no other byte.
pub memset-fills :
    (ptr value num : ℕ) (memory : ℕ → ℕ)
    → ((k : ℕ) → k < num → memset ptr value num memory (ptr + k) ≡ value % 2 ^ 8)
      × ((q : ℕ) → (q < ptr) ⊎ (ptr + num ≤ q) → memset ptr value num memory q ≡ memory q)
memset-fills ptr value num memory =
    (λ k h. memset-inside num ptr value k memory h, λ q h. memset-outside num ptr value q memory h)
