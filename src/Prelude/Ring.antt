-- ===== src/Prelude/Ring.antt =====
-- A circular window of an array, for the keyboard's and the terminals' input queues.
use native.Mathlib.Nat.{mod-add-mod, mod-eq_of_lt, mod-eq-sub-mod, add-zero}
use native.Mathlib.Decide.{dec_lt}
use Prim.Native.Nat.{ℕ, zero, suc, ◌+◌, ◌-◌, ◌%◌, ◌≤◌, ◌<◌}
use mathlib.Core.Path.{◌≡◌, refl, sym, ap, ap₂, ◌∙◌}
use mathlib.Core.Logic.{◌≢◌}
use mathlib.Core.List.{List, [], ◌∷◌, ◌++◌}
use native.Mathlib.Omega.{arith}
use create_an_os.Prelude.Lists.{length, get_or, set, get_or-set_self, get_or-set_ne}

module _ (buf : List ℕ) (size : ℕ) where
  -- The `n` entries from index `h` on, going round at `size`.
  abbrev pub window : ℕ → ℕ → List ℕ
  window h zero = []
  window h (suc n) = get_or buf h 0 ∷ window ((h + 1) % size) n

  pub length-window : (h n : ℕ) → length (window h n) ≡ n
  length-window h zero = refl
  length-window h (suc n) = ap suc (length-window ((h + 1) % size) n)

  -- `window` matches on `suc`, the code tests for 0.
  pub window_of_pos :
      (h n : ℕ) → 0 < n → window h n ≡ get_or buf h 0 ∷ window ((h + 1) % size) (n - 1)
  window_of_pos h zero p = absurd (omega arith)
  window_of_pos h (suc n) p = ap (λ k. window h (suc k)) (omega arith)

step-mod : (size h n : ℕ) → ((h + 1) % size + n) % size ≡ (h + suc n) % size
step-mod size h n = rw mod-add-mod (ap (λ k. k % size) (omega arith))

-- The last entry of a window.
pub window-last :
    (buf : List ℕ) (size n h : ℕ)
    → h < size
    → window buf size h (suc n) ≡ window buf size h n ++ get_or buf ((h + n) % size) 0 ∷ []
window-last buf size zero h hh = rw (add-zero, mod-eq_of_lt hh)
window-last buf size (suc n) h hh =
    ap (◌∷◌ (get_or buf h 0))
      (rw (← step-mod size h n) (window-last buf size n ((h + 1) % size) (omega arith)))

-- Fewer than `size` steps round do not come back to the start.
add-mod-ne : {size h k : ℕ} → h < size → suc k < size → (h + suc k) % size ≢ h
add-mod-ne {size} {h} {k} hh hk = elim (dec_lt (h + suc k) size) [
  | yes p ↦ omega (arith, mod-eq_of_lt p)
  | no p ↦ omega (
    arith,
    mod-eq-sub-mod {n = h + suc k} {m = size} (omega arith),
    mod-eq_of_lt {n = h + suc k - size} {m = size} (omega arith),
  )
]

-- Writing just past a window extends it by that entry.
pub window-set :
    (buf : List ℕ) (size x n h i : ℕ)
    → size ≤ length buf
    → h < size
    → n < size
    → i ≡ (h + n) % size
    → window (set buf i x) size h (suc n) ≡ window buf size h n ++ (x ∷ [])
window-set buf size x zero h i hs hh hn e =
    rw (e, add-zero, mod-eq_of_lt hh, get_or-set_self buf h x 0 (omega arith))
window-set buf size x (suc n) h i hs hh hn e =
    ap₂ ◌∷◌ (get_or-set_ne buf i h x 0 (rw e (add-mod-ne hh hn))) (
      window-set buf size x n ((h + 1) % size) i hs (omega arith) (omega arith)
        (e ∙ sym (step-mod size h n)))
