-- ===== src/Prelude/Runs.antt =====
-- What a run of the kernel's C code comes to, and arrays whose accesses are checked.
use Prim.Native.Nat.{ℕ, zero, suc, ◌<◌}
use mathlib.Core.Path.{◌≡◌, refl, ap}
use mathlib.Core.Logic.{◌≢◌}
use mathlib.Core.List.{List, [], ◌∷◌}
use native.Mathlib.Omega.{arith}
use create_an_os.Prelude.Tests.{ltb, if◌then◌else◌}
use create_an_os.Prelude.Lists.{length, get_or, set}

-- `hang` is a `while(1);` or a wait that nothing ends, `fault` an access outside of an object,
-- which C leaves undefined.
pub data Outcome {ℓ} (A : Type ℓ) : Type ℓ where
  ok : A → Outcome A
  hang fault : Outcome A

infixl 5 ◌>>=◌ ◌>>◌
abbrev pub ◌>>=◌ {ℓ κ} : {A : Type ℓ} {B : Type κ} → Outcome A → (A → Outcome B) → Outcome B
ok a >>= f = f a
hang >>= f = hang
fault >>= f = fault

abbrev pub ◌>>◌ {ℓ} : {B : Type ℓ} → Outcome (Unit {0}) → Outcome B → Outcome B
m >> k = m >>= λ _. k

-- A predicate on the value of a run that returns.
abbrev pub Returns {ℓ} : {A : Type ℓ} → Outcome A → (A → Type 0) → Type 0
Returns (ok a) P = P a
Returns hang P = ⊥
Returns fault P = ⊥

module _ {ℓ} {A : Type ℓ} where
  -- `a[i]`
  unfoldable pub read : List A → ℕ → Outcome A
  read [] i = fault
  read (x ∷ xs) zero = ok x
  read (x ∷ xs) (suc i) = read xs i

  -- `a[i] = v`
  unfoldable pub write : List A → ℕ → A → Outcome (List A)
  write xs i v = if ltb i (length xs) then ok (set xs i v) else fault

  pub read-ok : (xs : List A) (i : ℕ) (d : A) → i < length xs → read xs i ≡ ok (get_or xs i d)
  unfolding read
  read-ok [] i d h = absurd (omega arith)
  read-ok (x ∷ xs) zero d h = refl
  read-ok (x ∷ xs) (suc i) d h = read-ok xs i d (omega arith)

  pub read-fault : (xs : List A) (i : ℕ) → ¬ (i < length xs) → read xs i ≡ fault
  unfolding read
  read-fault [] i h = refl
  read-fault (x ∷ xs) zero h = absurd (omega arith)
  read-fault (x ∷ xs) (suc i) h = read-fault xs i (λ p. h (omega arith))

  pub read-some : (xs : List A) (i : ℕ) → i < length xs → (x : A) × (read xs i ≡ ok x)
  unfolding read
  read-some [] i h = absurd (omega arith)
  read-some (x ∷ xs) zero h = (x, refl)
  read-some (x ∷ xs) (suc i) h = read-some xs i (omega arith)

  pub write-ok : (xs : List A) (i : ℕ) (v : A) → i < length xs → write xs i v ≡ ok (set xs i v)
  unfolding write
  write-ok xs i v h = ground arith

  pub write-fault : (xs : List A) (i : ℕ) (v : A) → ¬ (i < length xs) → write xs i v ≡ fault
  unfolding write
  write-fault xs i v h = ground arith

  pub lt-of_read : (xs : List A) (i : ℕ) (x : A) → read xs i ≡ ok x → i < length xs
  unfolding read
  lt-of_read [] i x h = absurd (cc)
  lt-of_read (y ∷ xs) zero x h = omega arith
  lt-of_read (y ∷ xs) (suc i) x h = omega (arith, lt-of_read xs i x h)

  pub read-set_self : (xs : List A) (i : ℕ) (v : A) → i < length xs → read (set xs i v) i ≡ ok v
  unfolding read
  read-set_self [] i v h = absurd (omega arith)
  read-set_self (x ∷ xs) zero v h = refl
  read-set_self (x ∷ xs) (suc i) v h = read-set_self xs i v (omega arith)

  pub read-set_ne : (xs : List A) (i j : ℕ) (v : A) → i ≢ j → read (set xs i v) j ≡ read xs j
  unfolding read
  read-set_ne [] i j v h = refl
  read-set_ne (x ∷ xs) zero zero v h = absurd (h refl)
  read-set_ne (x ∷ xs) zero (suc j) v h = refl
  read-set_ne (x ∷ xs) (suc i) zero v h = refl
  read-set_ne (x ∷ xs) (suc i) (suc j) v h = read-set_ne xs i j v (λ e. h (ap suc e))

  -- Writing back what was read.
  pub set-read : (xs : List A) (i : ℕ) (x : A) → read xs i ≡ ok x → set xs i x ≡ xs
  unfolding read
  set-read [] i x h = refl
  set-read (y ∷ xs) zero x h = ground arith
  set-read (y ∷ xs) (suc i) x h = ap (λ r. y ∷ r) (set-read xs i x h)

  pub set-set : (xs : List A) (i : ℕ) (v w : A) → set (set xs i v) i w ≡ set xs i w
  set-set [] i v w = refl
  set-set (x ∷ xs) zero v w = refl
  set-set (x ∷ xs) (suc i) v w = ap (λ r. x ∷ r) (set-set xs i v w)

  abbrev value_or : A → Outcome A → A
  value_or d (ok a) = a
  value_or d hang = d
  value_or d fault = d

  pub ok-injective : (a b : A) → ok a ≡ ok b → a ≡ b
  ok-injective a b h = ap (value_or a) h

  -- A run that only hands its value on.
  pub bind-ok : (m : Outcome A) → (m >>= λ x. ok x) ≡ m
  bind-ok (ok a) = refl
  bind-ok hang = refl
  bind-ok fault = refl
