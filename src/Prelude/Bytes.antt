-- ===== src/Prelude/Bytes.antt =====
-- Facts over a small range of numbers, computed for each of them.
use Prim.Native.Nat.{ℕ, zero, suc, ◌<◌}
use native.Mathlib.Decide.{ℕ_discrete}
use mathlib.Core.Path.{◌≡◌, ap, ◌∙◌}
use mathlib.Core.Bool.{Bool, true, false}
use native.Mathlib.Omega.{arith}
use create_an_os.Prelude.Tests.{if◌then◌else◌}

unfoldable pub holds_below : ℕ → (ℕ → Bool) → Bool
holds_below zero test = true
holds_below (suc k) test = if holds_below k test then test k else false

pub at-holds_below :
    (bound : ℕ) (test : ℕ → Bool) (i : ℕ)
    → holds_below bound test ≡ true
    → i < bound
    → test i ≡ true
unfolding holds_below
at-holds_below zero test i all inside = absurd (omega arith)
at-holds_below (suc k) test i all inside = elim (ℕ_discrete i k) [
  | yes last ↦ ap test last ∙ ground (arith, all)
  | no other ↦ at-holds_below k test i (ground (arith, all)) (omega arith)
]
